-- ===== src/Network/Client/Short.antt =====
-- TCPClient.h when the system does not take a span at once.
use multithreading_io.Base.{
  ℕ, ◌+◌, ◌≡◌, ◌<◌, ◌≤◌, Bool, true, false, List, [], ◌∷◌, ◌++◌, ok, take, flatten, length, ap, sym,
  ◌∙◌, subst, refl, arith, length-append, length-take,
}
use multithreading_io.Wire.Cipher.{CtrMode}
use multithreading_io.FileStream.Disk.{FilePath}
use multithreading_io.Transfer.{Outcome, done}
use multithreading_io.Network.Client.{TcpClient, Sending, handler_called, create_sending, send_file}
use multithreading_io.Network.Client.Writes.{sent_after}
use multithreading_io.Network.Client.Send.{connected_lem}

module _ (accepts : List ℕ → List ℕ → ℕ) where
  pub sent_after-append :
      (sent : List ℕ) (xs ys : List (List ℕ))
      → sent_after accepts sent (xs ++ ys) ≡ sent_after accepts (sent_after accepts sent xs) ys
  unfolding sent_after
  sent_after-append sent [] ys = refl
  sent_after-append sent (x ∷ xs) ys = sent_after-append (sent ++ take (accepts sent x) x) xs ys

  pub sent_after_le :
      (sent : List ℕ) (ss : List (List ℕ))
      → length (sent_after accepts sent ss) ≤ length sent + length (flatten ss)
  unfolding sent_after
  sent_after_le sent [] = omega arith
  sent_after_le sent (s ∷ ss) = omega (
    arith,
    sent_after_le (sent ++ take (accepts sent s) s) ss,
    length-append sent (take (accepts sent s) s),
    length-take (accepts sent s) s,
    length-append s (flatten ss),
  )

  pub sent_after_short :
      (sent : List ℕ) (s : List ℕ) (ss : List (List ℕ))
      → accepts sent s < length s
      → length (sent_after accepts sent (s ∷ ss)) < length sent + length (flatten (s ∷ ss))
  unfolding sent_after
  sent_after_short sent s ss h = omega (
    arith,
    sent_after_le (sent ++ take (accepts sent s) s) ss,
    length-append sent (take (accepts sent s) s),
    length-take (accepts sent s) s,
    length-append s (flatten ss),
  )

length-flatten :
    (xs ys : List (List ℕ))
    → length (flatten (xs ++ ys)) ≡ length (flatten xs) + length (flatten ys)
length-flatten [] ys = omega arith
length-flatten (x ∷ xs) ys = omega (
  arith,
  length-append x (flatten (xs ++ ys)),
  length-append x (flatten xs),
  length-flatten xs ys,
)

split_short :
    (accepts : List ℕ → List ℕ → ℕ) (spans before : List (List ℕ)) (s : List ℕ)
    (behind : List (List ℕ))
    → spans ≡ before ++ s ∷ behind
    → accepts (sent_after accepts [] before) s < length s
    → length (sent_after accepts [] spans) < length (flatten spans)
split_short accepts spans before s behind e short =
    subst (λ l. length (sent_after accepts [] l) < length (flatten l)) (sym e)
      (omega (
        arith,
        ap length (sent_after-append accepts [] before (s ∷ behind)),
        sent_after_le accepts [] before,
        sent_after_short accepts (sent_after accepts [] before) s behind short,
        length-flatten before (s ∷ behind),
      ))

-- If the system does not take one of the spans whole at once, then the task of a connected client,
-- while its random generator does not fail, still ends without an exception, as if the file had been
-- sent, but fewer bytes have been sent than were written.
pub short_write_lost :
    (ctr : CtrMode) (random : ℕ → List ℕ) (accepts : List ℕ → List ℕ → ℕ)
    (present : FilePath → Bool) (opened : Bool) (name bytes : List ℕ) (w : Sending)
    → create_sending ctr present opened name bytes (handler_called false true) ≡ ok w
    → (w' : Sending) (before : List (List ℕ)) (s : List ℕ) (behind : List (List ℕ))
    → (send_file ctr (λ n. ok (random n)) accepts (length bytes + 1) name w).1 ≡ w'
    → w'.client.pending ≡ before ++ s ∷ behind
    → accepts (sent_after accepts [] before) s < length s
    → ((send_file ctr (λ n. ok (random n)) accepts (length bytes + 1) name w).0 ≡ done tt)
      × (length w'.client.sent < length (flatten w'.client.pending))
short_write_lost ctr random accepts present opened name bytes w made w' before s behind run spans
      short =
    let (first, segments, w₁, _, _, sent, client) =
      connected_lem ctr random accepts present opened name bytes w made in
    let same = sym (ap (λ (p : Outcome (Unit {0}) × Sending). p.1) sent) ∙ run in
    (
      ap (λ (p : Outcome (Unit {0}) × Sending). p.0) sent,
      subst (λ (v : Sending). length v.client.sent < length (flatten v.client.pending)) same
          (subst (λ (c : TcpClient). length c.sent < length (flatten c.pending)) (sym client)
            (split_short accepts (first ∷ segments) before s behind
              (sym (ap (λ (c : TcpClient). c.pending) client)
                ∙ ap (λ (v : Sending). v.client.pending) same
                ∙ spans)
              short)),
    )
