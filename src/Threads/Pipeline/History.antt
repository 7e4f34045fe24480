-- ===== src/Threads/Pipeline/History.antt =====
-- The history of the bytes that CircularBuffer.h was offered, over several steps of the two threads.
use multithreading_io.Base.{
  Bool-cases, inl, inr, ltb, length, arith, ℕ, ◌≡◌, List, [], ◌∷◌, ◌++◌, append-nil, append_assoc,
  refl, ap, sym, ◌∙◌,
}
use mathlib.Core.List.{append_cancel_left}
use multithreading_io.Threads.Pipeline.{
  Offer, taken, dropped, Shared, Producer, fetch, putting, put_disable, put_cell, put_store,
  Consumer, top, System, Thread, reader, writer, step, run, produce, consume, next_chunk,
}
use multithreading_io.Threads.Pipeline.Invariant.{offered, kept, lost, kept-eq-offered}

kept-append : (log more : List Offer) → kept (log ++ more) ≡ kept log ++ kept more
unfolding kept
kept-append [] more = refl
kept-append (taken x ∷ log) more = ap (◌∷◌ x) (kept-append log more)
kept-append (dropped x ∷ log) more = kept-append log more

pub lost-append : (log more : List Offer) → lost (log ++ more) ≡ lost log ++ lost more
unfolding lost
lost-append [] more = refl
lost-append (taken x ∷ log) more = lost-append log more
lost-append (dropped x ∷ log) more = ap (◌∷◌ x) (lost-append log more)

offered-append : (log more : List Offer) → offered (log ++ more) ≡ offered log ++ offered more
unfolding offered
offered-append [] more = refl
offered-append (taken x ∷ log) more = ap (◌∷◌ x) (offered-append log more)
offered-append (dropped x ∷ log) more = ap (◌∷◌ x) (offered-append log more)

-- What a step of the reading thread adds.
abbrev added : Producer → List Offer
added (put_disable x xs) = dropped x ∷ []
added (put_store x xs next) = taken x ∷ []
added _ = []

next_chunk-log : (source : List (List ℕ)) (m : Shared) → (next_chunk source m).1.log ≡ m.log ++ []
unfolding next_chunk
next_chunk-log [] m = sym (append-nil m.log)
next_chunk-log ([] ∷ chunks) m = sym (append-nil m.log)
next_chunk-log ((x ∷ xs) ∷ chunks) m = sym (append-nil m.log)

produce-log : (p : Producer) (m : Shared) → (produce p m).1.log ≡ m.log ++ added p
unfolding produce
produce-log fetch m = next_chunk-log m.source m
produce-log (putting []) m = sym (append-nil m.log)
produce-log (putting (x ∷ xs)) m = sym (append-nil m.log)
produce-log (put_disable x xs) m = refl
produce-log (put_store x xs next) m = refl
produce-log (put_cell x xs tail next) m = elim (Bool-cases (ltb tail (length m.buffer.cells))) [
  | inl h ↦ ground (arith, h, append-nil m.log)
  | inr h ↦ ground (arith, h, append-nil m.log)
]
produce-log p m = sym (append-nil m.log)

consume-log : (c : Consumer) (m : Shared) → (consume c m).1.log ≡ m.log
unfolding consume
consume-log top m = refl
consume-log c m = refl

-- Steps only add to the history.
run-log :
    (ts : List Thread) (s : System) → (more : List Offer) × ((run ts s).mem.log ≡ s.mem.log ++ more)
unfolding run step
run-log [] s = ([], sym (append-nil s.mem.log))
run-log (reader ∷ ts) s =
    let (more, e) = run-log ts (step reader s) in
    (
      added s.producer ++ more,
      e
          ∙ ap (λ l. l ++ more) (produce-log s.producer s.mem)
          ∙ append_assoc s.mem.log (added s.producer) more,
    )
run-log (writer ∷ ts) s =
    let (more, e) = run-log ts (step writer s) in
    (more, e ∙ ap (λ l. l ++ more) (consume-log s.consumer s.mem))

-- If nothing is dropped on the way, then the buffer takes all that it is offered on the way.
pub run-kept :
    (ts : List Thread) (s : System) (rest : List ℕ)
    → lost (run ts s).mem.log ≡ lost s.mem.log
    → offered (run ts s).mem.log ≡ offered s.mem.log ++ rest
    → kept (run ts s).mem.log ≡ kept s.mem.log ++ rest
run-kept ts s rest same all =
    let (more, e) = run-log ts s in
    let old = s.mem.log in
    let none : lost more ≡ [] =
      append_cancel_left (lost old) (lost more) []
        (sym (lost-append old more) ∙ ap lost (sym e) ∙ same ∙ sym (append-nil (lost old))) in
    let new : offered more ≡ rest =
      append_cancel_left (offered old) (offered more) rest
        (sym (offered-append old more) ∙ ap offered (sym e) ∙ all) in
    ap kept e ∙ kept-append old more ∙ ap (◌++◌ (kept old)) (kept-eq-offered more none ∙ new)
