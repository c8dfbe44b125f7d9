-- ===== src/Daemon/Lifecycle/Accounting.antt =====
-- That the daemon of src/daemon.c counts its clients and jobs, and ends only when it has none.
use storaged.Prelude.{
  ℕ, ◌+◌, ◌-◌, ◌<◌, ◌^◌, ◌≡◌, ◌≢◌, refl, Bool, true, false, none, some, List, [], ◌∷◌, ◌==◌, length,
  arith, ◌⊎◌, inl, inr, ◌||◌, ap, ◌∙◌,
}
use storaged.Daemon.Lifecycle.{
  Daemon, daemon_new, is_idle, maybe_finished, on_name_lost, on_name_acquired, on_client_appeared,
  on_client_disappeared, on_manager_ready, launch_job, unexport, on_job_completed,
}

-- The daemon with the clients that the bus knows of, as a number.
pub record World : Type 0 where
  pub daemon : Daemon
  pub clients : ℕ

unfoldable pub is_exported : ℕ → List ℕ → Bool
is_exported j [] = false
is_exported j (k ∷ ks) = j == k || is_exported j ks

-- What may happen next. GLib gives ids that are not 0, and tells of a name only while it is asked
-- for. A client disappears after it has appeared, and a job completes while it is
-- exported. Two assumptions bound the counters of 32 bits: fewer than 2 ^ 32 clients and jobs live at
-- once, and no job lives so long that the counter of the jobs comes round to its number.
pub data Step : World → World → Type 0 where
  manager_ready :
      {w : World} (id : ℕ) → 0 < id → Step w (record w { daemon = on_manager_ready id w.daemon })
  name_acquired :
      {w : World}
      → 0 < w.daemon.name_owner_id
      → Step w (record w { daemon = on_name_acquired w.daemon })
  name_lost : {w : World} → Step w (record w { daemon = on_name_lost w.daemon })
  appears :
      {w : World}
      → w.clients + 1 < 2 ^ 32
      → Step w (record { daemon = on_client_appeared w.daemon; clients = w.clients + 1 })
  disappears :
      {w : World} {d : Daemon}
      → 0 < w.clients
      → on_client_disappeared w.daemon ≡ some d
      → Step w (record { daemon = d; clients = w.clients - 1 })
  launches :
      {w : World}
      → length w.daemon.jobs + 1 < 2 ^ 32
      → is_exported w.daemon.job_id w.daemon.jobs ≡ false
      → Step w (record w { daemon = launch_job w.daemon })
  completes :
      {w : World} {d : Daemon} (j : ℕ)
      → is_exported j w.daemon.jobs ≡ true
      → on_job_completed j w.daemon ≡ some d
      → Step w (record w { daemon = d })

pub data Reach (persist : Bool) : World → Type 0 where
  start : Reach persist (record { daemon = daemon_new persist; clients = 0 })
  next : {v w : World} → Reach persist v → Step v w → Reach persist w

pub record Inv (w : World) : Type 0 where
  pub clients_counted : w.daemon.num_clients ≡ w.clients
  pub jobs_counted : w.daemon.num_jobs ≡ length w.daemon.jobs
  pub clients_bounded : w.clients < 2 ^ 32
  pub jobs_bounded : length w.daemon.jobs < 2 ^ 32
  pub asked_for : w.daemon.name_owned ≡ true → 0 < w.daemon.name_owner_id

length-unexport :
    (j : ℕ) (ks : List ℕ) → is_exported j ks ≡ true → length (unexport j ks) + 1 ≡ length ks
unfolding unexport is_exported
length-unexport j [] h = cc
length-unexport j (k ∷ ks) h = ground (arith, length-unexport j ks)

length-unexport_absent :
    (j : ℕ) (ks : List ℕ) → is_exported j ks ≡ false → length (unexport j ks) ≡ length ks
unfolding unexport is_exported
length-unexport_absent j [] h = refl
length-unexport_absent j (k ∷ ks) h = ground (arith, length-unexport_absent j ks)

exported-pos : (j : ℕ) (ks : List ℕ) → is_exported j ks ≡ true → 0 < length ks
unfolding is_exported
exported-pos j [] h = cc
exported-pos j (k ∷ ks) h = omega arith

Step-Inv : {v w : World} → Step v w → Inv v → Inv w
unfolding maybe_finished on_name_lost on_name_acquired on_client_appeared on_client_disappeared
    on_manager_ready launch_job on_job_completed
Step-Inv (manager_ready id h) i = ground arith
Step-Inv (name_acquired h) i = ground arith
Step-Inv name_lost i = ground arith
Step-Inv (appears h) i = ground arith
Step-Inv (disappears {w = w} pos e) i = ground arith
Step-Inv (launches {w = w} h new) i =
    ground (arith, length-unexport_absent w.daemon.job_id w.daemon.jobs new)
Step-Inv (completes {w = w} j x e) i = ground (arith, length-unexport j w.daemon.jobs x)

-- However the events come, as long as fewer than 2 ^ 32 clients and fewer than 2 ^ 32 jobs live at once
-- and no new job gets the number of one that is still exported: the counters are the numbers of clients
-- and of exported jobs, and a name that the daemon owns is one that it has asked for.
pub Reach-Inv : {persist : Bool} {w : World} → Reach persist w → Inv w
unfolding daemon_new
Reach-Inv start = ground arith
Reach-Inv (next r s) = Step-Inv s (Reach-Inv r)

-- Neither assertion fails: in every world that can be reached, a client that is there may disappear
-- and a job that is exported may complete, and the daemon goes on.
pub no_assertion_fails :
    {persist : Bool} {w : World}
    → Reach persist w
    → (0 < w.clients → on_client_disappeared w.daemon ≢ none)
      × ((j : ℕ) → is_exported j w.daemon.jobs ≡ true → on_job_completed j w.daemon ≢ none)
unfolding on_client_disappeared on_job_completed
no_assertion_fails {w = w} r = (
  λ h. ground (arith, Reach-Inv r),
  λ j x. ground (arith, Reach-Inv r, exported-pos j w.daemon.jobs x),
)

Step-finished :
    {v w : World}
    → Step v w
    → (w.daemon.finished ≡ v.daemon.finished)
      ⊎ ((w.daemon.finished ≡ v.daemon.finished + 1) × (is_idle w.daemon ≡ true))
unfolding maybe_finished on_name_lost on_name_acquired on_client_appeared on_client_disappeared
    on_manager_ready launch_job on_job_completed
Step-finished (manager_ready id h) = ground arith
Step-finished (name_acquired h) = ground arith
Step-finished name_lost = ground arith
Step-finished (appears h) = ground arith
Step-finished (disappears pos e) = ground arith
Step-finished (launches h new) = ground arith
Step-finished (completes j x e) = ground arith

length-zero : (ks : List ℕ) → length ks ≡ 0 → ks ≡ []
length-zero [] h = refl
length-zero (k ∷ ks) h = absurd (omega arith)

-- The signal `finished` is only emitted by a daemon that is not to persist, in a world where the name
-- is not owned, no client is left and no job is exported.
pub finished_idle :
    {persist : Bool} {v w : World}
    → Reach persist v
    → Step v w
    → w.daemon.finished ≢ v.daemon.finished
    → (w.daemon.persist ≡ false)
      × (w.daemon.name_owned ≡ false)
      × (w.clients ≡ 0)
      × (w.daemon.jobs ≡ [])
finished_idle {v = v} {w = w} r s changed = elim (Step-finished s) [
  | inl same ↦ absurd (changed same)
  | inr (_, idle) ↦
      let i = Step-Inv s (Reach-Inv r) in
      (
        ground arith,
        ground arith,
        ground (arith, i.clients_counted),
        length-zero w.daemon.jobs (ground (arith, i.jobs_counted)),
      )
]

-- When the last client goes and no job is left, a daemon that is not to persist gives up the name it
-- asked for, and emits `finished`.
pub last_client_finishes :
    {persist : Bool} {w : World} {d : Daemon}
    → Reach persist w
    → w.clients ≡ 1
    → w.daemon.jobs ≡ []
    → w.daemon.persist ≡ false
    → on_client_disappeared w.daemon ≡ some d
    → (d.finished ≡ w.daemon.finished + 1) × (d.name_owner_id ≡ 0) × (d.name_owned ≡ false)
unfolding on_client_disappeared maybe_finished
last_client_finishes {w = w} r one none_left p e =
    let i = Reach-Inv r in
    let jobs : w.daemon.num_jobs ≡ 0 = i.jobs_counted ∙ ap length none_left in
    ground (arith, i.clients_counted, jobs, i.asked_for)
