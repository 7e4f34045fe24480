-- ===== src/Transfer/Tasks.antt =====
-- `Run` of NetworkTask.cpp: several files, one task each.
use multithreading_io.Base.{◌≡◌, refl, ap, sym, ◌∙◌, List, [], ◌∷◌, ◌++◌, Exception}
use multithreading_io.Transfer.{
  Outcome, done, thrown, unfinished, M, absorb, run_tasks, run_network_task,
}

module _ {W : Type 0} where
  -- What comes after a task that gave this.
  abbrev after : List (M W (Unit {0})) → Outcome (Unit {0}) × W → Outcome (Unit {0}) × W
  after ts r = elim r.0 [
    | done _ ↦ run_tasks ts r.1
    | thrown e ↦ (thrown e, r.1)
    | unfinished ↦ (unfinished, r.1)
  ]

  run_tasks_cons :
      (t : M W (Unit {0})) (ts : List (M W (Unit {0}))) (w : W) (r : Outcome (Unit {0}) × W)
      → t w ≡ r
      → run_tasks (t ∷ ts) w ≡ after ts r
  unfolding run_tasks
  run_tasks_cons t ts w r e = ap (after ts) e

  run_tasks-append :
      (ts us : List (M W (Unit {0}))) (w w₁ : W)
      → run_tasks ts w ≡ (done tt, w₁)
      → run_tasks (ts ++ us) w ≡ run_tasks us w₁
  unfolding run_tasks
  run_tasks-append [] us w w₁ h = ap (λ r. run_tasks us r.1) h
  run_tasks-append (t ∷ ts) us w w₁ h = go (t w) refl (λ v k. run_tasks-append ts us v w₁ k)
    where
      go :
          (r : Outcome (Unit {0}) × W)
          → t w ≡ r
          → ((v : W) → run_tasks ts v ≡ (done tt, w₁) → run_tasks (ts ++ us) v ≡ run_tasks us w₁)
          → run_tasks (t ∷ (ts ++ us)) w ≡ run_tasks us w₁
      go (done a, v) e more =
          run_tasks_cons t (ts ++ us) w (done a, v) e
          ∙ more v (sym (run_tasks_cons t ts w (done a, v) e) ∙ h)
      go (thrown x, v) e more =
          let f = sym (run_tasks_cons t ts w (thrown x, v) e) ∙ h in absurd (cc)
      go (unfinished, v) e more =
          let f = sym (run_tasks_cons t ts w (unfinished, v) e) ∙ h in absurd (cc)

  -- If the tasks of the first files end and the next one throws any exception, then `NetworkTask::Run`
  -- returns as if nothing had happened, and neither the files after it nor the event loop have run.
  pub failed_file_ends_all :
      (ts us : List (M W (Unit {0}))) (task run_io : M W (Unit {0})) (w w₁ w₂ : W) (e : Exception)
      → run_tasks ts w ≡ (done tt, w₁)
      → task w₁ ≡ (thrown e, w₂)
      → run_network_task (ts ++ task ∷ us) run_io w ≡ (done tt, w₂)
  unfolding run_network_task
  failed_file_ends_all ts us task run_io w w₁ w₂ e h k =
      ap
        (λ r. absorb (elim r.0 [
          | done _ ↦ run_io r.1
          | thrown x ↦ (thrown x, r.1)
          | unfinished ↦ (unfinished, r.1)
        ]))
        (run_tasks-append ts (task ∷ us) w w₁ h ∙ run_tasks_cons task us w₁ (thrown e, w₂) k)
