-- ===== src/Process/Loss.antt =====
-- SharedWriteDataAccess.h and SharedReadDataAccess.h: the stop against the last chunk, and the span
-- that is mapped memory.
use multithreading_io.Base.{
  ℕ, suc, ◌+◌, ◌≡◌, subst, List, [], ◌∷◌, ◌++◌, append-nil, length, drop, replicate, take-append,
  refl, ap, ap₂, sym, ◌∙◌, arith,
}
use multithreading_io.Process.{
  SharedState, resize, Sender, fetch, stop_post, stop_try, sender_done, Receiver, top, deliver,
  receiver_done, Processes, launch, Side, sending, receiving, send, receive, interleave,
}
use multithreading_io.Process.Invariant.{is_done, length-resize, drop_beyond}

pub interleave-append :
    (ts us : List Side) (s : Processes) → interleave (ts ++ us) s ≡ interleave us (interleave ts s)
unfolding interleave
interleave-append [] us s = refl
interleave-append (t ∷ ts) us s = interleave-append ts us _

abbrev pub processes : SharedState → Sender → Receiver → Processes
processes m p r = record { mem = m; sender = p; receiver = r }

copied : (c memory : List ℕ) → c ++ drop (length c) (resize (length c) memory) ≡ c
copied c memory =
    ap (◌++◌ c) (
      drop_beyond (length c) (resize (length c) memory)
        (omega (arith, length-resize (length c) memory)))
    ∙ append-nil c

-- The sender hands over a chunk while there is space.
pub hand_over :
    (x : ℕ) (xs : List ℕ) (rest : List (List ℕ)) (m : SharedState) (r : Receiver)
    → m.space ≡ 1
    → m.source ≡ (x ∷ xs) ∷ rest
    → interleave (replicate 5 sending) (processes m fetch r)
      ≡ processes
          (record m { space = 0; available = m.available + 1; memory = x ∷ xs; source = rest })
          fetch
          r
unfolding interleave
hand_over x xs rest m r one src = ground (arith, one, src, copied (x ∷ xs) m.memory)

abbrev pub Spinning : Sender → Type 0
Spinning stop_post = Unit
Spinning stop_try = Unit
Spinning _ = ⊥

-- The sender waits in `Stop` for space, and the receiver has ended.
pub record Abandoned (s : Processes) : Type 0 where
  pub space : s.mem.space ≡ 0
  pub dest : s.mem.dest ≡ []
  pub receiver : s.receiver ≡ receiver_done
  pub sender : Spinning s.sender

send-Abandoned :
    (p : Sender) {m : SharedState} {r : Receiver}
    → Abandoned (processes m p r)
    → let (p', m') = send p m in Abandoned (processes m' p' r)
unfolding send
send-Abandoned stop_post v = ground arith
send-Abandoned stop_try v = ground arith
send-Abandoned _ v = absurd v.sender

receive-Abandoned :
    (r : Receiver) {m : SharedState} {p : Sender}
    → Abandoned (processes m p r)
    → let (r', m') = receive r m in Abandoned (processes m' p r')
unfolding receive
receive-Abandoned receiver_done v = v
receive-Abandoned r v = ground (arith, ap is_done v.receiver)

interleave-Abandoned : (ts : List Side) {s : Processes} → Abandoned s → Abandoned (interleave ts s)
unfolding interleave
interleave-Abandoned [] v = v
interleave-Abandoned (sending ∷ ts) {s} v = interleave-Abandoned ts (send-Abandoned s.sender v)
interleave-Abandoned (receiving ∷ ts) {s} v =
    interleave-Abandoned ts (receive-Abandoned s.receiver v)

pub launch_lem : (chunks : List (List ℕ)) → launch chunks ≡ processes (launch chunks).mem fetch top
unfolding launch
launch_lem chunks = refl

overtake : List Side
overtake = replicate 5 sending ++ (sending ∷ sending ∷ receiving ∷ [])

overtake-Abandoned :
    (x : ℕ) (xs : List ℕ) → Abandoned (interleave overtake (launch ((x ∷ xs) ∷ [])))
unfolding overtake interleave launch
overtake-Abandoned x xs = record { space = refl; dest = refl; receiver = refl; sender = tt }

-- For every file of one chunk there is an interleaving after which nothing is in the output file, the
-- receiver has ended, and the sender waits for space: whatever comes then, the output file stays empty
-- and the sender does not end.
pub stop_overtakes :
    (x : ℕ) (xs : List ℕ)
    → (ts : List Side) × ((us : List Side)
        → Abandoned (interleave (ts ++ us) (launch ((x ∷ xs) ∷ []))))
stop_overtakes x xs = (
  overtake,
  λ us.
      subst Abandoned (sym (interleave-append overtake us (launch ((x ∷ xs) ∷ []))))
        (interleave-Abandoned us (overtake-Abandoned x xs)),
)

-- The receiver takes the chunk that waits, as far as `SpaceAvailable` is posted.
pub take_over :
    (m : SharedState) (p : Sender)
    → m.available ≡ 1
    → m.stop ≡ 0
    → interleave (replicate 4 receiving) (processes m p top)
      ≡ processes
          (record m { space = m.space + 1; available = 0; mapped = m.mapped ++ (m.memory ∷ []) })
          p
          (deliver (length m.memory))
unfolding interleave
take_over m p one running = ground (arith, one, running)

pub finish :
    (m : SharedState)
    → m.space ≡ 1
    → m.stop ≡ 0
    → m.source ≡ []
    → interleave (replicate 3 sending ++ (receiving ∷ [])) (processes m fetch top)
      ≡ processes (record m { space = 0 }) sender_done receiver_done
unfolding interleave
finish m one running src = ground (arith, one, running, src)

pub deliver_lem :
    (m : SharedState) (p : Sender) (n : ℕ)
    → interleave (receiving ∷ []) (processes m p (deliver n))
      ≡ processes (record m { dest = m.dest ++ resize n m.memory }) p top
unfolding interleave
deliver_lem m p n = refl

pub chain :
    (ts us : List Side) (s : Processes) {t u : Processes}
    → interleave ts s ≡ t
    → interleave us t ≡ u
    → interleave (ts ++ us) s ≡ u
chain ts us s e f = interleave-append ts us s ∙ ap (interleave us) e ∙ f

-- Of a file of two chunks of the same size, in this interleaving, the receiver writes the first one
-- to the file after the sender has put the second one over it.
overwrite : List Side
overwrite =
    replicate 5 sending
    ++ (replicate 4 receiving
        ++ (replicate 5 sending
            ++ ((receiving ∷ [])
                ++ (replicate 4 receiving
                    ++ ((receiving ∷ []) ++ (replicate 3 sending ++ (receiving ∷ [])))))))

pub resize_self : (c : List ℕ) → resize (length c) c ≡ c
resize_self c = take-append c (replicate (length c) 0)

-- Both chunks are written, and these bytes are in the output file.
abbrev written : ℕ → List ℕ → ℕ → List ℕ → List ℕ → Processes
written x xs y ys dest =
    processes
      (record {
        space = 0;
        available = 0;
        stop = 0;
        memory = y ∷ ys;
        source = [];
        dest = dest;
        mapped = (x ∷ xs) ∷ (y ∷ ys) ∷ [];
      })
      sender_done receiver_done

overwrite_lem :
    (x : ℕ) (xs : List ℕ) (y : ℕ) (ys : List ℕ)
    → length xs ≡ length ys
    → interleave overwrite (launch ((x ∷ xs) ∷ (y ∷ ys) ∷ []))
      ≡ written x xs y ys ((y ∷ ys) ++ (y ∷ ys))
unfolding overwrite launch
overwrite_lem x xs y ys same =
    ap (interleave overwrite) (launch_lem ((x ∷ xs) ∷ (y ∷ ys) ∷ []))
    ∙ chain _ _ _ (hand_over x xs ((y ∷ ys) ∷ []) _ top refl refl) (
        chain _ _ _ (take_over _ fetch refl refl) (
          chain _ _ _ (hand_over y ys [] _ (deliver (length (x ∷ xs))) refl refl) (
            chain _ _ _ (deliver_lem _ fetch (length (x ∷ xs))) (
              chain _ _ _ (take_over _ fetch refl refl) (
                chain _ _ _ (deliver_lem _ fetch (length (y ∷ ys))) (
                  finish _ refl refl refl
                  ∙ ap (written x xs y ys) (
                      ap₂ ◌++◌ (ap (λ n. resize (suc n) (y ∷ ys)) same ∙ resize_self (y ∷ ys))
                        (resize_self (y ∷ ys)))))))))

-- For every file of two chunks of the same size there is an interleaving after which both processes
-- have ended and the output file holds the second chunk twice, and of the first chunk nothing.
pub span_overwritten :
    (x : ℕ) (xs : List ℕ) (y : ℕ) (ys : List ℕ)
    → length xs ≡ length ys
    → (ts : List Side) × let s = interleave ts (launch ((x ∷ xs) ∷ (y ∷ ys) ∷ [])) in
        (s.sender ≡ sender_done)
        × (s.receiver ≡ receiver_done)
        × (s.mem.dest ≡ (y ∷ ys) ++ (y ∷ ys))
span_overwritten x xs y ys same =
    let e = overwrite_lem x xs y ys same in
    (
      overwrite,
      (
        ap (λ (s : Processes). s.sender) e,
        ap (λ (s : Processes). s.receiver) e,
        ap (λ (s : Processes). s.mem.dest) e,
      ),
    )
