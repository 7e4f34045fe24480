-- ===== src/Threads/Pipeline/Hole.antt =====
-- CircularBuffer.h and SyncWriteDataAccess.h on a file that does not fit into the buffer.
use multithreading_io.Base.{
  ℕ, suc, ◌+◌, ◌-◌, ◌≤◌, ◌<◌, ◌≡◌, ◌≢◌, List, [], ◌∷◌, ◌++◌, append-nil, flatten, All, All-append,
  length, length-append, length-drop, drop, refl, ap, ap₂, sym, subst, ◌∙◌, arith,
}
use native.Mathlib.Decide.{dec_lt}
use multithreading_io.Threads.Buffer.Bounds.{max_capacity}
use multithreading_io.Threads.Buffer.Contents.{contents, length-contents}
use multithreading_io.Threads.Pipeline.{
  Shared, fetch, putting, producer_done, top, consumer_done, System, start, Thread, run,
}
use multithreading_io.Threads.Pipeline.Invariant.{
  NonEmpty, lost, kept, offered, kept-eq-offered, in_hand, todo,
}
use multithreading_io.Threads.Pipeline.Safety.{bytes_accounted}
use multithreading_io.Threads.Pipeline.Calm.{CalmAfter, system, run_chain}
use multithreading_io.Threads.Pipeline.History.{run-kept}
use multithreading_io.Threads.Pipeline.Overflow.{Dropped, fill_up, leave_hole}

abbrev Accounted : List ℕ → System → Type 0
Accounted total s =
    (s.mem.dest ++ (in_hand s.consumer ++ contents s.mem.buffer) ≡ kept s.mem.log)
    × (offered s.mem.log ++ (todo s.producer ++ flatten s.mem.source) ≡ total)

-- What the output file is in the end.
abbrev pub Holed : ℕ → List ℕ → System → Type 0
Holed capacity total s =
    (first gone rest : List ℕ) × (length first + 1 ≡ capacity)
    × (gone ≢ [])
    × (total ≡ first ++ (gone ++ rest))
    × (s.producer ≡ producer_done)
    × (s.consumer ≡ consumer_done)
    × (s.mem.dest ≡ first ++ rest)

-- The account of the bytes before the chunk's rest is dropped, after that, and in the end.
system-Holed :
    (total gone : List ℕ) (after : List (List ℕ)) (capacity : ℕ) (m m₁ m₂ : Shared)
    (vs : List Thread)
    → CalmAfter [] capacity (capacity - 1) after [] m
    → 1 < capacity
    → Dropped gone capacity (capacity - 1) after [] m m₁
    → run vs (system m₁ fetch top) ≡ system m₂ producer_done consumer_done
    → lost m₂.log ≡ gone
    → m₂.source ≡ []
    → contents m₂.buffer ≡ []
    → gone ≢ []
    → Accounted total (system m (putting gone) top)
    → Accounted total (system m₁ fetch top)
    → Accounted total (system m₂ producer_done consumer_done)
    → Holed capacity total (system m₂ producer_done consumer_done)
system-Holed total gone after capacity m m₁ m₂ vs v two w p l src z some a b c =
    let all : offered m₂.log ≡ offered m₁.log ++ flatten after =
      sym (append-nil (offered m₂.log))
      ∙ ap (λ s. offered m₂.log ++ flatten s) (sym src)
      ∙ c.1
      ∙ sym b.1
      ∙ ap (λ s. offered m₁.log ++ flatten s) w.loaded.rest in
    let grown : kept m₂.log ≡ kept m₁.log ++ flatten after =
      ap (λ (s : System). kept s.mem.log) (sym p)
      ∙ run-kept vs (system m₁ fetch top) (flatten after)
          (ap (λ (s : System). lost s.mem.log) p ∙ l ∙ sym w.loaded.missing)
          (ap (λ (s : System). offered s.mem.log) p ∙ all) in
    let held : contents m.buffer ≡ kept m.log =
      ap (λ d. d ++ contents m.buffer) (sym v.out) ∙ a.0 in
    (
      kept m.log,
      gone,
      flatten after,
      omega (arith, ap length held, length-contents m.buffer, v.holds),
      some,
      sym a.1
          ∙ ap₂ (λ l s. l ++ (gone ++ flatten s)) (sym (kept-eq-offered m.log v.missing)) v.rest,
      refl,
      refl,
      sym (append-nil m₂.dest)
          ∙ ap (◌++◌ m₂.dest) (sym z)
          ∙ c.0
          ∙ grown
          ∙ ap (λ l. l ++ flatten after) w.taking,
    )

run-Holed :
    (capacity : ℕ) (before after : List (List ℕ)) (y : ℕ) (ys : List ℕ)
    → let chunks = before ++ (y ∷ ys) ∷ after in
      capacity ≤ max_capacity
      → 1 < capacity
      → All NonEmpty chunks
      → All (λ c. length c < capacity) after
      → length (flatten before) < capacity
      → capacity ≤ length (flatten before) + suc (length ys)
      → (ts : List Thread) × Holed capacity (flatten chunks) (run ts (start capacity chunks))
run-Holed capacity before after y ys small two ne fit h over =
    let chunks = before ++ (y ∷ ys) ∷ after in
    let total = flatten chunks in
    let s₀ = start capacity chunks in
    let r = capacity - 1 - length (flatten before) in
    let gone = drop r (y ∷ ys) in
    let (ne₁, ne₂) = All-append NonEmpty before ((y ∷ ys) ∷ after) ne in
    let (ts, m, e, v) = fill_up capacity before after y ys small ne₁ h over in
    let (us, vs, m₁, m₂, q, w, p, l, src, z) =
      leave_hole capacity (capacity - 1) gone after m v (omega arith) (omega arith) ne₂.1 fit in
    let at = bytes_accounted capacity chunks (omega arith) small ne in
    let e₁ : run (ts ++ us) s₀ ≡ system m₁ fetch top = run_chain ts us s₀ e q in
    let e₂ : run ((ts ++ us) ++ vs) s₀ ≡ system m₂ producer_done consumer_done =
      run_chain (ts ++ us) vs s₀ e₁ p in
    let a : Accounted total (system m (putting gone) top) = subst (Accounted total) e (at ts) in
    let b : Accounted total (system m₁ fetch top) = subst (Accounted total) e₁ (at (ts ++ us)) in
    let c : Accounted total (system m₂ producer_done consumer_done) =
      subst (Accounted total) e₂ (at ((ts ++ us) ++ vs)) in
    let some : gone ≢ [] = λ n. absurd (omega (arith, ap length n, length-drop r (y ∷ ys))) in
    (
      (ts ++ us) ++ vs,
      subst (Holed capacity total) (sym e₂)
          (system-Holed total gone after capacity m m₁ m₂ vs v two w p l src z some a b c),
    )

-- The chunk that does not fit whole any more.
pub record Split (capacity n : ℕ) (chunks : List (List ℕ)) : Type 0 where
  pub before : List (List ℕ)
  pub first : ℕ
  pub others : List ℕ
  pub after : List (List ℕ)
  pub is : chunks ≡ before ++ (first ∷ others) ∷ after
  pub fits : n + length (flatten before) < capacity
  pub exceeds : capacity ≤ n + length (flatten before) + suc (length others)

pub chunks-Split :
    (capacity n : ℕ) (chunks : List (List ℕ))
    → n < capacity
    → capacity ≤ n + length (flatten chunks)
    → Split capacity n chunks
chunks-Split capacity n [] h over = absurd (omega arith)
chunks-Split capacity n ([] ∷ chunks) h over =
    let s = chunks-Split capacity n chunks h over in
    record {
      before = [] ∷ s.before;
      first = s.first;
      others = s.others;
      after = s.after;
      is = ap (◌∷◌ []) s.is;
      fits = s.fits;
      exceeds = s.exceeds;
    }
chunks-Split capacity n ((x ∷ xs) ∷ chunks) h over = elim (dec_lt (n + suc (length xs)) capacity) [
  | yes small ↦
      let s =
        chunks-Split capacity (n + suc (length xs)) chunks small
          (omega (arith, length-append xs (flatten chunks))) in
      let more = length-append xs (flatten s.before) in
      record {
        before = (x ∷ xs) ∷ s.before;
        first = s.first;
        others = s.others;
        after = s.after;
        is = ap (◌∷◌ (x ∷ xs)) s.is;
        fits = omega (arith, s.fits, more);
        exceeds = omega (arith, s.exceeds, more);
      }
  | no large ↦ record {
    before = [];
    first = x;
    others = xs;
    after = chunks;
    is = refl;
    fits = omega arith;
    exceeds = omega arith;
  }
]

-- For every file that does not fit into the buffer, read in non-empty chunks none of which fills it,
-- there is an interleaving after which both threads have finished and the output file has a hole: it
-- starts with as many bytes of the input file as the buffer can hold, one less than its capacity, then
-- one or more bytes are missing, and the rest of the file follows.
pub overflow_leaves_hole :
    (capacity : ℕ) (chunks : List (List ℕ))
    → 1 < capacity
    → capacity ≤ max_capacity
    → All NonEmpty chunks
    → All (λ c. length c < capacity) chunks
    → capacity ≤ length (flatten chunks)
    → (ts : List Thread) × Holed capacity (flatten chunks) (run ts (start capacity chunks))
overflow_leaves_hole capacity chunks two small ne fit over =
    let s = chunks-Split capacity 0 chunks (omega arith) (omega arith) in
    let chunk = s.first ∷ s.others in
    let parts =
      All-append (λ c. length c < capacity) s.before (chunk ∷ s.after)
        (subst (All (λ c. length c < capacity)) s.is fit) in
    subst (λ l. (ts : List Thread) × Holed capacity (flatten l) (run ts (start capacity l)))
      (sym s.is)
      (run-Holed capacity s.before s.after s.first s.others small two (subst (All NonEmpty) s.is ne)
        parts.1.1 (omega (arith, s.fits)) (omega (arith, s.exceeds)))
