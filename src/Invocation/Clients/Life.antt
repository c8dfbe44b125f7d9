-- ===== src/Invocation/Clients/Life.antt =====
-- The clients of src/invocation.c over time: the daemon is told of each one once when it appears and
-- once when it disappears, and the uid that a call is judged by is the one that the bus gave.
use storaged.Prelude.{
  ℕ, suc, ◌+◌, String, ◌≡◌, refl, Bool, true, false, Option, none, some, List, [], ◌∷◌, ◌++◌,
  lookup, is_some, arith, if◌then◌else◌, str_eq, eq_iff, eq_refl, lookup-insert, lookup-remove,
  Option-cases, inl, inr,
}
use storaged.Invocation.Clients.{
  Invocations, Client, Notice, appeared, disappeared, new_client, client_create, client_vanished,
  got_unix_user, with_uid,
}

-- The daemon's view of one client: how often it appeared, less how often it disappeared, as the pair
-- of both numbers
abbrev is_appeared : String → Notice → Bool
is_appeared k (appeared n) = str_eq n k
is_appeared k (disappeared n) = false

abbrev is_disappeared : String → Notice → Bool
is_disappeared k (appeared n) = false
is_disappeared k (disappeared n) = str_eq n k

abbrev pub count : (Notice → Bool) → List Notice → ℕ
count p [] = 0
count p (n ∷ ns) = let rest = count p ns in if p n then suc rest else rest

count-snoc :
    (p : Notice → Bool) (ns : List Notice) (n : Notice)
    → count p (ns ++ n ∷ []) ≡ (if p n then suc (count p ns) else count p ns)
count-snoc p [] n = refl
count-snoc p (m ∷ ns) n = ground (arith, count-snoc p ns n)

abbrev pub one_if : Bool → ℕ
one_if true = 1
one_if false = 0

-- A client has appeared as often as it disappeared, and once more while it is in the table.
abbrev pub IsPaired : String → Invocations → Type 0
IsPaired k inv =
    count (is_appeared k) inv.notices
    ≡ count (is_disappeared k) inv.notices + one_if (is_some (lookup k inv.clients))

client_create-IsPaired :
    (k sender : String) (inv : Invocations) → IsPaired k inv → IsPaired k (client_create sender inv)
unfolding client_create
client_create-IsPaired k sender inv h = elim (Option-cases (lookup sender inv.clients)) [
  | inr (c, there) ↦ rw (there, client_create) h
  | inl missing ↦
      rw (missing, client_create)
        (simp (lookup-insert, count-snoc) (ground (arith, eq_iff sender k, h)))
]

client_vanished-IsPaired :
    (k name : String) (inv : Invocations) → IsPaired k inv → IsPaired k (client_vanished name inv)
unfolding client_vanished
client_vanished-IsPaired k name inv h = elim (Option-cases (lookup name inv.clients)) [
  | inl missing ↦ rw (missing, client_vanished) h
  | inr (c, there) ↦
      rw (there, client_vanished)
        (simp (lookup-remove, count-snoc) (ground (arith, eq_iff name k, h)))
]

got_unix_user-IsPaired :
    (k name : String) (answer : Option ℕ) (inv : Invocations) {inv' : Invocations}
    → got_unix_user name answer inv ≡ some inv'
    → IsPaired k inv
    → IsPaired k inv'
unfolding got_unix_user
got_unix_user-IsPaired k name answer inv e h = elim (Option-cases (lookup name inv.clients)) [
  | inl missing ↦ ground arith
  | inr (c, there) ↦
      ground (arith, lookup-insert name k (with_uid answer c) inv.clients, eq_iff name k)
]

-- What may happen to the table: a call comes in, a client leaves the bus, or the bus answers.
pub data Event : Type 0 where
  calls vanishes : String → Event
  answers : String → Option ℕ → Event

-- `none` once the daemon has followed a NULL pointer.
unfoldable pub after : Event → Invocations → Option Invocations
after (calls name) inv = some (client_create name inv)
after (vanishes name) inv = some (client_vanished name inv)
after (answers name answer) inv = got_unix_user name answer inv

unfoldable pub run : Invocations → List Event → Option Invocations
run inv [] = some inv
run inv (e ∷ es) = elim (after e inv) [ none ↦ none | some inv' ↦ run inv' es ]

after-IsPaired :
    (k : String) (e : Event) (inv : Invocations) {inv' : Invocations}
    → after e inv ≡ some inv'
    → IsPaired k inv
    → IsPaired k inv'
unfolding after
after-IsPaired k (calls name) inv e h = ground (arith, client_create-IsPaired k name inv h)
after-IsPaired k (vanishes name) inv e h = ground (arith, client_vanished-IsPaired k name inv h)
after-IsPaired k (answers name answer) inv e h = got_unix_user-IsPaired k name answer inv e h

run-IsPaired :
    (k : String) (es : List Event) (inv : Invocations) {inv' : Invocations}
    → run inv es ≡ some inv'
    → IsPaired k inv
    → IsPaired k inv'
unfolding run
run-IsPaired k [] inv e h = ground arith
run-IsPaired k (x ∷ es) inv e h = elim (Option-cases (after x inv)) [
  | inl crash ↦ ground arith
  | inr (next, eq) ↦ run-IsPaired k es next (rw (eq, run) at e) (after-IsPaired k x inv eq h)
]

abbrev pub no_clients : Invocations
no_clients = record { clients = []; notices = [] }

-- Whatever calls, departures and answers have come, the daemon has been told that a client appeared
-- as often as that it disappeared, and once more exactly while the client is in the table.
pub run-IsPaired' :
    (k : String) (es : List Event) {inv : Invocations}
    → run no_clients es ≡ some inv
    → IsPaired k inv
run-IsPaired' k es e = run-IsPaired k es no_clients e (unfold lookup in refl)

pub lookup-client_create :
    (sender : String) (inv : Invocations)
    → lookup sender inv.clients ≡ none
    → lookup sender (client_create sender inv).clients ≡ some new_client
unfolding client_create
lookup-client_create sender inv h = rw (h, client_create) (simp (lookup-insert, eq_refl))

crash-gone :
    (name : String) (uid_answer : ℕ) (inv : Invocations) {c : Client}
    → lookup name inv.clients ≡ some c
    → got_unix_user name (some uid_answer) (client_vanished name inv) ≡ none
unfolding got_unix_user client_vanished
crash-gone name uid_answer inv h = ground (arith, lookup-remove name name inv.clients, eq_refl name)

-- A client that leaves before the bus has told its uid: the answer then makes the daemon follow a NULL
-- pointer. This holds for every client that was not in the table before, and every uid.
pub early_departure_crashes :
    (name : String) (uid_answer : ℕ) (inv : Invocations)
    → lookup name inv.clients ≡ none
    → run inv (calls name ∷ vanishes name ∷ answers name (some uid_answer) ∷ []) ≡ none
unfolding run after
early_departure_crashes name uid_answer inv h = ground (arith, gone)
  where
    there : lookup name (client_create name inv).clients ≡ some new_client
    there = lookup-client_create name inv h

    gone :
        got_unix_user name (some uid_answer) (client_vanished name (client_create name inv)) ≡ none
    gone = crash-gone name uid_answer (client_create name inv) there
