-- ===== src/Threads/Pipeline/Hang.antt =====
-- The two flags of BufferStateSync.h when a full buffer is emptied before writing is disabled.
use multithreading_io.Base.{
  suc, ◌-◌, flatten, flatten-append, All, All-append, drop, length-drop, length-append, ℕ, ◌+◌, ◌≤◌,
  ◌<◌, ◌≡◌, false, List, [], ◌∷◌, ◌++◌, length, subst, refl, ap, sym, ◌∙◌, arith,
}
use multithreading_io.Threads.Buffer.{get_data_size, set_head}
use multithreading_io.Threads.Buffer.Bounds.{
  max_capacity, add-mod-wrapped, get_data_size_lem, set_head_lem,
}
use multithreading_io.Threads.Pipeline.{
  Shared, putting, put_disable, top, start, Thread, reader, writer, run,
}
use multithreading_io.Threads.Pipeline.Invariant.{NonEmpty}
use multithreading_io.Threads.Pipeline.Overflow.{fill_up}
use multithreading_io.Threads.Pipeline.Hole.{chunks-Split}
use multithreading_io.Threads.Pipeline.Calm.{Calm, CalmAfter-Loaded, system, run-append, run_chain}
use multithreading_io.Threads.Pipeline.Loss.{Stuck, run-Stuck}
use multithreading_io.Threads.Pipeline.Deliver.{read_alone-Calm}
use multithreading_io.Threads.Pipeline.Read.{read_steps, run_read}

-- The reading thread finds the buffer full, and is about to disable writing.
meet_full :
    {capacity : ℕ} {dest : List ℕ} {source : List (List ℕ)} (m : Shared) (x : ℕ) (n : ℕ)
    → Calm capacity n source dest m
    → n + 1 ≡ capacity
    → run (reader ∷ reader ∷ []) (system m (putting (x ∷ [])) top) ≡ system m (put_disable x []) top
unfolding run
meet_full m x n v e = ground (
  arith,
  v.bounded,
  v.holds,
  v.same,
  get_data_size_lem v.bounded,
  add-mod-wrapped m.buffer.tail 1 m.buffer.capacity,
)

last_steps : List Thread
last_steps = reader ∷ reader ∷ reader ∷ writer ∷ []

-- It does so after the writing thread has emptied the buffer.
disable_late :
    {capacity : ℕ} {dest : List ℕ} (m : Shared) (x : ℕ)
    → Calm capacity 0 [] dest m
    → m.buffer.state.reading_enabled ≡ false
    → Stuck (run last_steps (system m (put_disable x []) top))
unfolding run last_steps
disable_late m x v off = ground (arith, v.rest, v.running, off)

disabled :
    {capacity n : ℕ} {dest : List ℕ} {source : List (List ℕ)} (m : Shared)
    → Calm capacity n source dest m
    → (set_head m.buffer (get_data_size m.buffer)).state.reading_enabled ≡ false
disabled m v = ground (arith, set_head_lem v.bounded (get_data_size m.buffer))

late_steps : ℕ → List Thread
late_steps n = (reader ∷ reader ∷ []) ++ (read_steps n ++ last_steps)

-- From a full buffer and one byte more.
full-Stuck :
    {capacity n : ℕ} {dest : List ℕ} (m : Shared) (x : ℕ)
    → Calm capacity n [] dest m
    → n + 1 ≡ capacity
    → 0 < n
    → Stuck (run (late_steps (get_data_size m.buffer)) (system m (putting (x ∷ [])) top))
unfolding late_steps
full-Stuck {n = n} m x v e h =
    let k = get_data_size m.buffer in
    subst Stuck
      (sym (
        run_chain (reader ∷ reader ∷ []) (read_steps k ++ last_steps) _ (meet_full m x n v e) (
          run_chain (read_steps k) last_steps _
            (run_read m (put_disable x []) v.bounded v.running (v.reading (omega (arith, h))))
            refl)))
      (disable_late _ x (read_alone-Calm m (CalmAfter-Loaded v)) (disabled m v))

none_left :
    (chunks : List (List ℕ)) → All NonEmpty chunks → length (flatten chunks) ≡ 0 → chunks ≡ []
none_left [] ne e = refl
none_left ([] ∷ chunks) ne e = absurd (ne.0 refl)
none_left ((x ∷ xs) ∷ chunks) ne e = absurd (omega (arith, e))

one_byte : (l : List ℕ) → length l ≡ 1 → (x : ℕ) × (l ≡ x ∷ [])
one_byte [] e = absurd (omega arith)
one_byte (x ∷ []) e = (x, refl)
one_byte (x ∷ y ∷ l) e = absurd (omega arith)

-- The last chunk brings one byte too many.
last-Stuck :
    (capacity : ℕ) (before : List (List ℕ)) (y : ℕ) (ys : List ℕ)
    → capacity ≤ max_capacity
    → 1 < capacity
    → All NonEmpty before
    → length (flatten before) + suc (length ys) ≡ capacity
    → (ts : List Thread) × Stuck (run ts (start capacity (before ++ (y ∷ ys) ∷ [])))
last-Stuck capacity before y ys small two ne fits =
    let chunks = before ++ (y ∷ ys) ∷ [] in
    let r = capacity - 1 - length (flatten before) in
    let (ts, m, e, v) = fill_up capacity before [] y ys small ne (omega arith) (omega arith) in
    let (x, is) = one_byte (drop r (y ∷ ys)) (length-drop r (y ∷ ys) ∙ omega arith) in
    let ws = late_steps (get_data_size m.buffer) in
    (
      ts ++ ws,
      subst Stuck (sym (run-append ts ws (start capacity chunks) ∙ ap (run ws) e)) (
          subst (λ l. Stuck (run ws (system m (putting l) top))) (sym is)
            (full-Stuck m x v (omega arith) (omega arith))),
    )

-- For every buffer of at least two bytes and every file that is one byte longer than the buffer can
-- hold, one less than its capacity, read in non-empty chunks of any sizes, there is an interleaving
-- after which the transfer hangs: both flags are off and both threads wait, and they do so for ever,
-- whatever steps come then.
pub hang_possible :
    (capacity : ℕ) (chunks : List (List ℕ))
    → capacity ≤ max_capacity
    → 1 < capacity
    → All NonEmpty chunks
    → length (flatten chunks) ≡ capacity
    → (ts : List Thread) × ((us : List Thread) → Stuck (run (ts ++ us) (start capacity chunks)))
hang_possible capacity chunks small two ne fits =
    let s = chunks-Split capacity 0 chunks (omega arith) (omega arith) in
    let chunk = s.first ∷ s.others in
    let (ne₁, ne₂) =
      All-append NonEmpty s.before (chunk ∷ s.after) (subst (All NonEmpty) s.is ne) in
    let total : length (flatten s.before) + (suc (length s.others) + length (flatten s.after))
        ≡ capacity =
      omega (
        arith,
        ap (λ l. length (flatten l)) s.is,
        fits,
        ap length (flatten-append s.before (chunk ∷ s.after)),
        length-append (flatten s.before) (flatten (chunk ∷ s.after)),
        length-append s.others (flatten s.after),
      ) in
    let no_more = none_left s.after ne₂.1 (omega (arith, total, s.exceeds)) in
    let is : chunks ≡ s.before ++ chunk ∷ [] = s.is ∙ ap (λ l. s.before ++ chunk ∷ l) no_more in
    let (ts, stuck) =
      last-Stuck capacity s.before s.first s.others small two ne₁
        (omega (arith, total, ap (λ l. length (flatten l)) no_more)) in
    let stuck' = subst (λ l. Stuck (run ts (start capacity l))) (sym is) stuck in
    (ts, λ us. subst Stuck (sym (run-append ts us (start capacity chunks))) (run-Stuck us stuck'))
