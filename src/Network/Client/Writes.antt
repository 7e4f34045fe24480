-- ===== src/Network/Client/Writes.antt =====
-- TCPClient.h: several writes, one after the other.
use multithreading_io.Base.{
  ℕ, ◌≡◌, Bool, true, false, ◌&&◌, Bool-cases, inl, inr, List, [], ◌∷◌, ◌++◌, append-nil,
  append_assoc, if◌then◌else◌, take, refl, ap, ◌∙◌, arith,
}
use multithreading_io.Network.Client.{TcpClient, stop, write}

-- The client after these writes.
unfoldable pub write_all : (List ℕ → List ℕ → ℕ) → List (List ℕ) → TcpClient → TcpClient
write_all accepts [] c = c
write_all accepts (s ∷ ss) c = write_all accepts ss (write accepts s c)

-- What the system has taken after these writes on a connection that has taken `sent` before.
unfoldable pub sent_after : (List ℕ → List ℕ → ℕ) → List ℕ → List (List ℕ) → List ℕ
sent_after accepts sent [] = sent
sent_after accepts sent (s ∷ ss) = sent_after accepts (sent ++ take (accepts sent s) s) ss

write_all-open :
    (accepts : List ℕ → List ℕ → ℕ) (ss : List (List ℕ)) (c : TcpClient)
    → c.is_connected_to_server ≡ true
    → c.is_open ≡ true
    → write_all accepts ss c
      ≡ record c { sent = sent_after accepts c.sent ss; pending = c.pending ++ ss }
unfolding write_all write sent_after
write_all-open accepts [] c h k = ground (arith, append-nil c.pending)
write_all-open accepts (s ∷ ss) c h k =
    let c' = record c {
      sent = c.sent ++ take (accepts c.sent s) s;
      pending = c.pending ++ (s ∷ []);
    } in
    ap (write_all accepts ss) (ground (arith, h, k))
    ∙ write_all-open accepts ss c' h k
    ∙ ground (arith, append_assoc c.pending (s ∷ []) ss)

write_all-closed :
    (accepts : List ℕ → List ℕ → ℕ) (ss : List (List ℕ)) (c : TcpClient)
    → (c.is_connected_to_server && c.is_open) ≡ false
    → write_all accepts ss c ≡ c
unfolding write_all write
write_all-closed accepts [] c h = refl
write_all-closed accepts (s ∷ ss) c h =
    ap (write_all accepts ss) (ground (arith, h)) ∙ write_all-closed accepts ss c h

and_split : (a b : Bool) → (a && b) ≡ true → (a ≡ true) × (b ≡ true)
and_split true true h = (refl, refl)
and_split _ _ h = absurd (ground (arith, h))

-- The client when it has been given these spans and then stopped.
abbrev pub client_after : (List ℕ → List ℕ → ℕ) → List (List ℕ) → TcpClient → TcpClient
client_after accepts ss c =
    if c.is_connected_to_server && c.is_open
    then record {
      is_connected_to_server = false;
      is_open = true;
      sent = sent_after accepts c.sent ss;
      pending = c.pending ++ ss;
    }
    else record c { is_connected_to_server = false }

pub stop-write_all :
    (accepts : List ℕ → List ℕ → ℕ) (ss : List (List ℕ)) (c : TcpClient)
    → stop (write_all accepts ss c) ≡ client_after accepts ss c
unfolding stop
stop-write_all accepts ss c = elim (Bool-cases (c.is_connected_to_server && c.is_open)) [
  | inl h ↦
      let (a, b) = and_split c.is_connected_to_server c.is_open h in
      ground (arith, write_all-open accepts ss c a b, a, b)
  | inr h ↦ ground (arith, write_all-closed accepts ss c h, h)
]
