-- ===== src/Process/Invariant.antt =====
-- What holds between any two steps of the two processes: one token goes round between the
-- semaphores and the processes, and each chunk of the file is in one place.
use multithreading_io.Base.{
  ℕ, zero, suc, ◌+◌, ◌<◌, ◌≤◌, ◌≡◌, ◌≢◌, Bool, true, false, List, [], ◌∷◌, ◌++◌, append-nil,
  append_assoc, flatten, All, length, drop, length-append, length-take, length-replicate, replicate,
  ◌==◌, if◌then◌else◌, refl, arith,
}
use multithreading_io.Process.{
  SharedState, resize, Sender, fetch, wait_space, truncating, copying, post_data, stop_post,
  stop_try, sender_done, Receiver, top, try_data, mapping, post_space, deliver, receiver_done, send,
  receive,
}

-- Who holds the token of the space semaphore.
abbrev pub sender_token : Sender → ℕ
sender_token (truncating _) = 1
sender_token (copying _) = 1
sender_token post_data = 1
sender_token sender_done = 1
sender_token _ = 0

abbrev pub receiver_token : Receiver → ℕ
receiver_token mapping = 1
receiver_token (post_space _) = 1
receiver_token _ = 0

-- The chunk that the sender has read and has not handed over.
abbrev pub held : Sender → List ℕ → List (List ℕ)
held (wait_space c) memory = c ∷ []
held (truncating c) memory = c ∷ []
held (copying c) memory = c ∷ []
held post_data memory = memory ∷ []
held _ memory = []

-- The chunk that has been handed over and not been mapped.
abbrev pub pending : Receiver → ℕ → List ℕ → List (List ℕ)
pending mapping n memory = memory ∷ []
pending _ n memory = if n == 0 then [] else memory ∷ []

-- The number of bytes of the span in the receiver's hands.
abbrev pub in_span : Receiver → ℕ
in_span (post_space n) = n
in_span (deliver n) = n
in_span _ = 0

abbrev pub SenderLocals : Sender → List ℕ → Type 0
SenderLocals (copying c) memory = length memory ≡ length c
SenderLocals _ memory = Unit

abbrev pub stopping : Sender → Bool
stopping stop_post = true
stopping stop_try = true
stopping sender_done = true
stopping _ = false

abbrev pub is_done : Receiver → Bool
is_done receiver_done = true
is_done _ = false

-- `chunks` is the whole file.
pub record Inv (chunks : List (List ℕ)) (m : SharedState) (p : Sender) (r : Receiver) : Type 0 where
  pub token : m.space + sender_token p + m.available + receiver_token r ≡ 1
  pub sender : SenderLocals p m.memory
  pub nonempty : All (λ c. c ≢ []) m.source
  pub exhausted : stopping p ≡ true → m.source ≡ []
  pub stops : 0 < m.stop → stopping p ≡ true
  pub ends : is_done r ≡ true → stopping p ≡ true
  pub account :
      m.mapped ++ (pending r m.available m.memory ++ (held p m.memory ++ m.source)) ≡ chunks
  pub size : length m.dest + in_span r ≡ length (flatten m.mapped)

pub length-resize : (n : ℕ) (bytes : List ℕ) → length (resize n bytes) ≡ n
length-resize n bytes = omega (
  arith,
  length-take n (bytes ++ replicate n 0),
  length-append bytes (replicate n 0),
  length-replicate {A = ℕ} n 0,
)

pub drop_beyond : (n : ℕ) (xs : List ℕ) → length xs ≤ n → drop n xs ≡ []
drop_beyond zero [] h = refl
drop_beyond zero (x ∷ xs) h = absurd (omega arith)
drop_beyond (suc n) [] h = refl
drop_beyond (suc n) (x ∷ xs) h = drop_beyond n xs (omega arith)

-- While another has the token, nothing is pending.
pub none_pending :
    (r : Receiver) (n : ℕ) (memory : List ℕ) → n + receiver_token r ≡ 0 → pending r n memory ≡ []
none_pending mapping n memory h = absurd (omega arith)
none_pending top n memory h = ground arith
none_pending try_data n memory h = ground arith
none_pending (post_space _) n memory h = ground arith
none_pending (deliver _) n memory h = ground arith
none_pending receiver_done n memory h = ground arith

one_pending :
    (r : Receiver) (n : ℕ) (memory : List ℕ)
    → n ≡ 1
    → receiver_token r ≡ 0
    → pending r n memory ≡ memory ∷ []
one_pending mapping n memory h k = refl
one_pending top n memory h k = ground arith
one_pending try_data n memory h k = ground arith
one_pending (post_space _) n memory h k = ground arith
one_pending (deliver _) n memory h k = ground arith
one_pending receiver_done n memory h k = ground arith

module _ {chunks : List (List ℕ)} {m : SharedState} {r : Receiver} where
  fetch-Inv :
      (source : List (List ℕ))
      → m.source ≡ source
      → Inv chunks m fetch r
      → let (p, m') = send fetch m in Inv chunks m' p r
  unfolding send
  fetch-Inv [] e v = ground arith
  fetch-Inv ([] ∷ cs) e v = ground arith
  fetch-Inv ((x ∷ xs) ∷ cs) e v = ground arith

  pub send-Inv : (p : Sender) → Inv chunks m p r → let (p', m') = send p m in Inv chunks m' p' r
  unfolding send
  send-Inv fetch v = fetch-Inv m.source refl v
  send-Inv (wait_space c) v = ground arith
  send-Inv (truncating c) v = ground (
    arith,
    length-resize (length c) m.memory,
    none_pending r m.available m.memory,
    none_pending r m.available (resize (length c) m.memory),
  )
  send-Inv (copying c) v = ground (
    arith,
    drop_beyond (length c) m.memory,
    append-nil c,
    none_pending r m.available m.memory,
    none_pending r m.available c,
  )
  send-Inv post_data v =
      ground (arith, none_pending r m.available m.memory, one_pending r (m.available + 1) m.memory)
  send-Inv stop_post v = ground arith
  send-Inv stop_try v = ground arith
  send-Inv sender_done v = v

flatten-append :
    (xs : List (List ℕ)) (x : List ℕ)
    → length (flatten (xs ++ (x ∷ []))) ≡ length (flatten xs) + length x
flatten-append [] x = omega (arith, length-append x [])
flatten-append (y ∷ ys) x = omega (
  arith,
  length-append y (flatten (ys ++ (x ∷ []))),
  length-append y (flatten ys),
  flatten-append ys x,
)

module _ {chunks : List (List ℕ)} {m : SharedState} {p : Sender} where
  pub receive-Inv :
      (r : Receiver) → Inv chunks m p r → let (r', m') = receive r m in Inv chunks m' p r'
  unfolding receive
  receive-Inv top v = ground arith
  receive-Inv try_data v = ground arith
  receive-Inv mapping v = ground (
    arith,
    append_assoc m.mapped (m.memory ∷ []) (held p m.memory ++ m.source),
    flatten-append m.mapped m.memory,
  )
  receive-Inv (post_space n) v = ground arith
  receive-Inv (deliver n) v =
      ground (arith, length-append m.dest (resize n m.memory), length-resize n m.memory)
  receive-Inv receiver_done v = v
