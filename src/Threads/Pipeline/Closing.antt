-- ===== src/Threads/Pipeline/Closing.antt =====
-- SyncReadDataAccess.h and BufferReader.h after the reading thread has ended: how far the writing
-- thread is from its end.
use multithreading_io.Base.{
  ℕ, ◌+◌, ◌-◌, ◌≤◌, ◌≡◌, false, List, [], ◌∷◌, refl, ap, sym, subst, ◌∙◌, arith,
}
use multithreading_io.Threads.Buffer.Bounds.{get_data_size_lem, get_data_size-lt-capacity}
use multithreading_io.Threads.Buffer.Contents.{length-contents}
use multithreading_io.Threads.Pipeline.{
  Shared, Producer, producer_done, Consumer, top, await_reading, poll_reading, check_reading,
  size_head, size_tail, load_head, copying, set_load, set_store, set_enable, set_test, set_disable,
  deliver, consumer_done, fault, System, Thread, reader, writer, step, run, produce, consume,
}
use multithreading_io.Threads.Pipeline.Invariant.{Inv, live}
use multithreading_io.Threads.Pipeline.Consume.{consume-Inv}
use multithreading_io.Threads.Pipeline.Flow.{turns}

-- The steps that the writing thread needs once `running_` is off.
abbrev pub writer_left : ℕ → Consumer → ℕ
writer_left capacity top = 1
writer_left capacity await_reading = 4
writer_left capacity poll_reading = 3
writer_left capacity check_reading = 2
writer_left capacity size_head = capacity + 10
writer_left capacity (size_tail _) = capacity + 9
writer_left capacity (load_head n) = n + 9
writer_left capacity (copying n _ i _) = n - i + 8
writer_left capacity (set_load _ _) = 7
writer_left capacity (set_store _ _) = 6
writer_left capacity (set_enable _ _) = 5
writer_left capacity (set_test _ _) = 4
writer_left capacity (set_disable _) = 3
writer_left capacity (deliver _) = 2
writer_left capacity consumer_done = 0
writer_left capacity fault = 0

-- Once `running_` is off, each step of the writing thread brings it nearer to its end, and the
-- reading thread does nothing more.
pub record Closing (total : List ℕ) (capacity : ℕ) (s : System) : Type 0 where
  pub inv : Inv total s.mem s.producer s.consumer
  pub same : s.mem.buffer.capacity ≡ capacity
  pub over : s.producer ≡ producer_done

consume-Closing :
    {total : List ℕ} {m : Shared} {p : Producer} (c : Consumer)
    → Inv total m p c
    → m.running ≡ false
    → let (c', m') = consume c m in
      (m'.buffer.capacity ≡ m.buffer.capacity)
      × (writer_left m.buffer.capacity c' ≤ writer_left m.buffer.capacity c - 1)
unfolding consume
consume-Closing (size_tail h) v off =
    ground (arith, get_data_size_lem v.bounded, get_data_size-lt-capacity v.bounded)
consume-Closing c v off = ground (arith)

step-done : (s : System) → s.producer ≡ producer_done → step reader s ≡ s
unfolding step
step-done s e = go s.producer e
  where
    go :
        (p : Producer)
        → p ≡ producer_done
        → (let (p', m) = produce p s.mem in record s { mem = m; producer = p' })
          ≡ record s { producer = p }
    go producer_done e = refl
    go p e = cc

pub run-Closing :
    {total : List ℕ} {capacity : ℕ} (us : List Thread) (s : System)
    → Closing total capacity s
    → Closing total capacity (run us s)
      × (writer_left capacity (run us s).consumer
          ≤ writer_left capacity s.consumer - turns writer us)
unfolding run turns step
run-Closing [] s v = (v, omega arith)
run-Closing {total} {capacity} (reader ∷ us) s v =
    subst
      (λ t.
        Closing total capacity (run us t)
        × (writer_left capacity (run us t).consumer
            ≤ writer_left capacity s.consumer - turns writer us))
      (sym (step-done s v.over)) (run-Closing us s v)
run-Closing {total} {capacity} (writer ∷ us) s v =
    let (same, less) = consume-Closing s.consumer v.inv (v.inv.running ∙ ap live v.over) in
    let (u, rest) =
      run-Closing us (step writer s)
        (record { inv = consume-Inv s.consumer v.inv; same = same ∙ v.same; over = v.over }) in
    let one : writer_left capacity (step writer s).consumer ≤ writer_left capacity s.consumer - 1 =
      subst (λ k. writer_left k (consume s.consumer s.mem).0 ≤ writer_left k s.consumer - 1) v.same
        less in
    (u, omega (arith, rest, one))

pub writer_left-le :
    (capacity : ℕ) (c : Consumer) {m : Shared} {total : List ℕ} {p : Producer}
    → Inv total m p c
    → m.buffer.capacity ≡ capacity
    → writer_left capacity c ≤ capacity + 10
writer_left-le capacity (load_head n) {m} v e =
    ground (arith, length-contents m.buffer, get_data_size-lt-capacity v.bounded)
writer_left-le capacity (copying n h i acc) {m} v e =
    ground (arith, length-contents m.buffer, get_data_size-lt-capacity v.bounded)
writer_left-le capacity c {m} v e = omega (arith, get_data_size-lt-capacity v.bounded)

pub writer_none_left :
    {total : List ℕ} {m : Shared} {p : Producer} (capacity : ℕ) (c : Consumer)
    → Inv total m p c
    → writer_left capacity c ≤ 0
    → c ≡ consumer_done
writer_none_left capacity consumer_done v h = refl
writer_none_left capacity fault v h = absurd v.consumer
writer_none_left capacity c v h = absurd (omega arith)
