-- ===== src/Daemon/Clients.antt =====
-- src/invocation.c tells src/daemon.c of its clients, through the main loop: the counter of the daemon is
-- the number of clients in the table.
use storaged.Prelude.{
  ℕ, zero, suc, ◌+◌, ◌-◌, ◌<◌, ◌^◌, ◌≡◌, refl, sym, ap, ◌∙◌, String, Bool, Option, none, some, List,
  [], ◌∷◌, ◌++◌, lookup, insert, length, ltb, arith, if◌then◌else◌, insert-IsUnique,
  remove-IsUnique, IsUnique, length-insert, length-remove, Option-cases, ◌⊎◌, inl, inr, subst,
}
use storaged.Invocation.Clients.{
  Invocations, Client, Notice, appeared, disappeared, new_client, client_create, client_vanished,
  got_unix_user, with_uid,
}
use storaged.Invocation.Clients.Life.{Event, calls, vanishes, answers, after, run, no_clients}
use storaged.Daemon.Lifecycle.{
  Daemon, daemon_new, maybe_finished, release_name, on_client_appeared, on_client_disappeared,
}

-- The clients after the notices, if there were so many before them; `none` if one disappears that is
-- not there.
balance : ℕ → List Notice → Option ℕ
balance k [] = some k
balance k (appeared name ∷ ns) = balance (suc k) ns
balance zero (disappeared name ∷ ns) = none
balance (suc k) (disappeared name ∷ ns) = balance k ns

abbrev pred : ℕ → ℕ
pred zero = zero
pred (suc k) = k

-- At no time are there 2 ^ 32 clients.
abbrev pub IsBounded : ℕ → List Notice → Type 0
IsBounded k [] = Unit
IsBounded k (appeared name ∷ ns) = (k + 1 < 2 ^ 32) × IsBounded (suc k) ns
IsBounded k (disappeared name ∷ ns) = IsBounded (pred k) ns

balance-append :
    (k m : ℕ) (xs ys : List Notice) → balance k xs ≡ some m → balance k (xs ++ ys) ≡ balance m ys
unfolding balance
balance-append k m [] ys e = ground (arith, e)
balance-append k m (appeared name ∷ xs) ys e = balance-append (suc k) m xs ys e
balance-append zero m (disappeared name ∷ xs) ys e = absurd (ground arith)
balance-append (suc k) m (disappeared name ∷ xs) ys e = balance-append k m xs ys e

-- The table holds the clients that the notices leave.
record IsCounted (inv : Invocations) : Type 0 where
  unique : IsUnique inv.clients
  balanced : balance 0 inv.notices ≡ some (length inv.clients)

module _ (inv : Invocations) (h : IsCounted inv) where
  create-IsCounted : (name : String) → IsCounted (client_create name inv)
  unfolding client_create
  create-IsCounted name = elim (Option-cases (lookup name inv.clients)) [
    | inr (c, there) ↦ rw (there, client_create) h
    | inl missing ↦
        rw (missing, client_create)
          (record {
            unique = insert-IsUnique name new_client inv.clients h.unique;
            balanced =
                balance-append 0 (length inv.clients) inv.notices (appeared name ∷ []) h.balanced
                ∙ unfold balance in
                  ap some (ground (arith, length-insert name new_client inv.clients, missing));
          })
  ]

  vanish-IsCounted : (name : String) → IsCounted (client_vanished name inv)
  unfolding client_vanished
  vanish-IsCounted name = elim (Option-cases (lookup name inv.clients)) [
    | inl missing ↦ rw (missing, client_vanished) h
    | inr (c, there) ↦
        let shrinks = length-remove name inv.clients h.unique (rw there refl) in
        rw (there, client_vanished)
          (record {
            unique = remove-IsUnique name inv.clients h.unique;
            balanced =
                balance-append 0 (length inv.clients) inv.notices (disappeared name ∷ []) h.balanced
                ∙ ap (λ k. balance k (disappeared name ∷ [])) (sym shrinks)
                ∙ unfold balance in refl;
          })
  ]

answer-IsCounted :
    (name : String) (answer : Option ℕ) (inv : Invocations) {inv' : Invocations}
    → got_unix_user name answer inv ≡ some inv'
    → IsCounted inv
    → IsCounted inv'
unfolding got_unix_user
answer-IsCounted name answer inv {inv'} e h = elim (Option-cases (lookup name inv.clients)) [
  | inl missing ↦ let same : inv ≡ inv' = ground (arith, missing, e) in subst IsCounted same h
  | inr (c, there) ↦
      let c' : Client = with_uid answer c in
      let t = insert name c' inv.clients in
      let same : record inv { clients = t } ≡ inv' = ground (arith, there, e) in
      subst IsCounted same (record {
        unique = insert-IsUnique name c' inv.clients h.unique;
        balanced = h.balanced ∙ ap some (ground (arith, length-insert name c' inv.clients, there));
      })
]

after-IsCounted :
    (x : Event) (inv : Invocations) {inv' : Invocations}
    → after x inv ≡ some inv'
    → IsCounted inv
    → IsCounted inv'
unfolding after
after-IsCounted (calls name) inv e h =
    subst IsCounted (ground (arith, e)) (create-IsCounted inv h name)
after-IsCounted (vanishes name) inv e h =
    subst IsCounted (ground (arith, e)) (vanish-IsCounted inv h name)
after-IsCounted (answers name answer) inv e h = answer-IsCounted name answer inv e h

run-IsCounted :
    (es : List Event) (inv : Invocations) {inv' : Invocations}
    → run inv es ≡ some inv'
    → IsCounted inv
    → IsCounted inv'
unfolding run
run-IsCounted [] inv e h = subst IsCounted (ground (arith, e)) h
run-IsCounted (x ∷ es) inv e h = elim (Option-cases (after x inv)) [
  | inl crash ↦ ground arith
  | inr (next, eq) ↦ run-IsCounted es next (rw (eq, run) at e) (after-IsCounted x inv eq h)
]

-- What the daemon's main loop handles, in order: a notice, or anything that leaves the number of
-- clients alone.
pub data Item : Type 0 where
  told : Notice → Item
  other : (f : Daemon → Daemon) → ((d : Daemon) → (f d).num_clients ≡ d.num_clients) → Item

abbrev pub notices_of : List Item → List Notice
notices_of [] = []
notices_of (told n ∷ is) = n ∷ notices_of is
notices_of (other f keeps ∷ is) = notices_of is

-- on_invoke_client_appeared and on_invoke_client_disappeared call the daemon's handlers.
unfoldable pub hear : Item → Daemon → Option Daemon
hear (told (appeared name)) d = some (on_client_appeared d)
hear (told (disappeared name)) d = on_client_disappeared d
hear (other f keeps) d = some (f d)

-- `none` once an assertion of the daemon has failed.
unfoldable pub hear_all : List Item → Daemon → Option Daemon
hear_all [] d = some d
hear_all (i ∷ is) d = elim (hear i d) [ none ↦ none | some d' ↦ hear_all is d' ]

appeared-num :
    (d : Daemon)
    → d.num_clients + 1 < 2 ^ 32
    → (on_client_appeared d).num_clients ≡ suc d.num_clients
unfolding on_client_appeared
appeared-num d h = omega arith

disappeared-num :
    (d : Daemon) (k : ℕ)
    → d.num_clients ≡ suc k
    → (d' : Daemon) × (on_client_disappeared d ≡ some d') × (d'.num_clients ≡ k)
unfolding on_client_disappeared release_name maybe_finished
disappeared-num d k h =
    let e = record d { num_clients = d.num_clients - 1 } in
    let d' : Daemon = maybe_finished (if ltb 0 e.num_clients then e else release_name e) in
    (d', ground (arith, h), ground (arith, h))

hear_all-step :
    (i : Item) (is : List Item) (d : Daemon) {d' : Daemon}
    → hear i d ≡ some d'
    → hear_all (i ∷ is) d ≡ hear_all is d'
unfolding hear_all
hear_all-step i is d e = rw (e, hear_all) refl

zero_or_suc : (n : ℕ) → (n ≡ 0) ⊎ ((m : ℕ) × (n ≡ suc m))
zero_or_suc zero = inl refl
zero_or_suc (suc m) = inr (m, refl)

hear_all-balance :
    (is : List Item) (d : Daemon) (m : ℕ)
    → IsBounded d.num_clients (notices_of is)
    → balance d.num_clients (notices_of is) ≡ some m
    → (d' : Daemon) × (hear_all is d ≡ some d') × (d'.num_clients ≡ m)
unfolding hear_all hear balance
hear_all-balance [] d m b e = (d, refl, ground (arith, e))
hear_all-balance (other f keeps ∷ is) d m b e =
    hear_all-balance is (f d) m (subst (λ k. IsBounded k (notices_of is)) (sym (keeps d)) b)
      (ap (λ k. balance k (notices_of is)) (keeps d) ∙ e)
hear_all-balance (told (appeared name) ∷ is) d m b e =
    let one : (on_client_appeared d).num_clients ≡ suc d.num_clients = appeared-num d b.0 in
    hear_all-balance is (on_client_appeared d) m
      (subst (λ k. IsBounded k (notices_of is)) (sym one) b.1)
      (ap (λ k. balance k (notices_of is)) one ∙ e)
hear_all-balance (told (disappeared name) ∷ is) d m b e = elim (zero_or_suc d.num_clients) [
  | inl none_left ↦
      let bad : balance 0 (disappeared name ∷ notices_of is) ≡ some m =
        ap (λ k. balance k (disappeared name ∷ notices_of is)) (sym none_left) ∙ e in
      absurd (ground arith)
  | inr (j, some_left) ↦
      let (d', told_so, fewer) = disappeared-num d j some_left in
      let bounded = subst (λ k. IsBounded (pred k) (notices_of is)) some_left b in
      let balanced = ap (λ k. balance k (disappeared name ∷ notices_of is)) (sym some_left) ∙ e in
      let (last, heard, counted) =
        hear_all-balance is d' m (subst (λ k. IsBounded k (notices_of is)) (sym fewer) bounded)
          (ap (λ k. balance k (notices_of is)) fewer ∙ balanced) in
      (last, hear_all-step (told (disappeared name)) is d (unfold hear in told_so) ∙ heard, counted)
]

-- Whatever has happened to the table of clients, and however the notices of it come in between the
-- other things the daemon does, once it has heard them all no assertion has failed and it counts as
-- many clients as there are in the table. The calls and departures were handled without following a
-- NULL pointer, and there were never 2 ^ 32 clients.
pub clients_counted :
    (es : List Event) (is : List Item) (persist : Bool) {inv : Invocations}
    → run no_clients es ≡ some inv
    → notices_of is ≡ inv.notices
    → IsBounded 0 inv.notices
    → (d : Daemon) × (hear_all is (daemon_new persist) ≡ some d)
      × (d.num_clients ≡ length inv.clients)
unfolding daemon_new
clients_counted es is persist {inv} e n b =
    let counted =
      run-IsCounted es no_clients e (record { unique = tt; balanced = unfold balance in refl }) in
    hear_all-balance is (daemon_new persist) (length inv.clients) (subst (IsBounded 0) (sym n) b)
      (ap (balance 0) n ∙ counted.balanced)
