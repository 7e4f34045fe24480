-- ===== src/Network/Client/Several.antt =====
-- ReaderFactory.h and NetworkTask.cpp on the client's side: several files, each with a connection of
-- its own.
use multithreading_io.Base.{
  ℕ, zero, suc, ◌+◌, ◌≡◌, Bool, List, [], ◌∷◌, ◌++◌, append_assoc, length, length-append, Result,
  ok, throw, ◌>>=◌, refl, ap, subst, sym, ◌∙◌, arith,
}
use multithreading_io.Wire.Cipher.{CtrMode, new_encryption}
use multithreading_io.FileStream.Disk.{FilePath}
use multithreading_io.Transfer
use multithreading_io.Transfer.{
  Outcome, done, thrown, unfinished, M, pure, run_tasks, run_network_task,
}
use multithreading_io.Network.{read_name, data_segments}
use multithreading_io.Network.Client.{TcpClient, Attempt, Sending, create_sending, send_file}
use multithreading_io.Network.Client.Writes.{client_after}
use multithreading_io.Network.Client.Send.{send_file_lem}
use multithreading_io.Whole.{file_chunks, with_blocks}

-- A file of the command line: whether the system could open it, what it holds, and how the connecting
-- of its client goes.
pub record Source : Type 0 where
  pub name : FilePath
  pub opened : Bool
  pub content : List ℕ
  pub attempt : Attempt

-- A task acts on the objects of its own file.
abbrev pub on_client : ℕ → M Sending (Unit {0}) → M (List Sending) (Unit {0})
on_client i task [] = (done tt, [])
on_client zero task (w ∷ ws) = let (o, w') = task w in (o, w' ∷ ws)
on_client (suc i) task (w ∷ ws) = let (o, ws') = on_client i task ws in (o, w ∷ ws')

module _ (ctr : CtrMode) where
  -- The loop of `ReaderFactory::CreateTask` over the sources.
  unfoldable pub create_sendings : (FilePath → Bool) → List Source → Result (List Sending)
  create_sendings present [] = ok []
  create_sendings present (s ∷ ss) =
      create_sending ctr present s.opened s.name s.content s.attempt >>= λ w.
      create_sendings present ss >>= λ ws. ok (w ∷ ws)

  module _ (random : ℕ → ℕ → List ℕ) (accepts : ℕ → List ℕ → List ℕ → ℕ) where
    -- The tasks from the `i`-th on. A file of n bytes has n + 1 rounds.
    unfoldable pub client_tasks : ℕ → List Source → List (M (List Sending) (Unit {0}))
    client_tasks i [] = []
    client_tasks i (s ∷ ss) =
        on_client i (send_file ctr (λ n. ok (random i n)) (accepts i) (length s.content + 1) s.name)
        ∷ client_tasks (suc i) ss

    -- The file of this source, on the client before and after.
    abbrev pub IsFileSent : ℕ → Source → TcpClient → TcpClient → Type 0
    IsFileSent i s c c' =
        (first : List ℕ) × (segments : List (List ℕ)) × (read_name ctr (ok (random i 0))
            new_encryption s.name
          ≡ ok (first, record { iv = random i 0 }))
        × (data_segments ctr (record { iv = random i 0 })
              (with_blocks (random i) 1 (file_chunks s.content))
            ≡ ok segments)
        × (c' ≡ client_after (accepts i) (first ∷ segments) c)

    abbrev pub AllSent : ℕ → List Source → List Sending → List Sending → Type 0
    AllSent i (s ∷ ss) (w ∷ ws) (w' ∷ ws') =
        IsFileSent i s w.client w'.client × AllSent (suc i) ss ws ws'
    AllSent i [] [] [] = Unit
    AllSent i _ _ _ = ⊥

on_client_at :
    (before : List Sending) (task : M Sending (Unit {0})) (w : Sending) (ws : List Sending)
    → on_client (length before) task (before ++ w ∷ ws) ≡ ((task w).0, before ++ (task w).1 ∷ ws)
on_client_at [] task w ws = refl
on_client_at (v ∷ before) task w ws =
    ap (λ (r : Outcome (Unit {0}) × List Sending). (r.0, v ∷ r.1)) (on_client_at before task w ws)

bind_ok :
    {A B : Type 0} (m : Result A) (f : A → Result B) (b : B)
    → (m >>= f) ≡ ok b
    → (a : A) × (m ≡ ok a) × (f a ≡ ok b)
bind_ok (ok a) f b e = (a, refl, e)
bind_ok (throw z) f b e = absurd (cc)

bind_done :
    {W : Type 0} (m k : M W (Unit {0})) (w v : W)
    → m w ≡ (done tt, v)
    → Transfer.◌>>=◌ m (λ _. k) w ≡ k v
bind_done m k w v e = ground (arith, e)

module _ (ctr : CtrMode) (random : ℕ → ℕ → List ℕ) (accepts : ℕ → List ℕ → List ℕ → ℕ)
    (present : FilePath → Bool) where
  create_sendings_inv :
      (s : Source) (ss : List Source) (ws : List Sending)
      → create_sendings ctr present (s ∷ ss) ≡ ok ws
      → (w : Sending) × (rest : List Sending) × (create_sending ctr present s.opened s.name
            s.content s.attempt
          ≡ ok w)
        × (create_sendings ctr present ss ≡ ok rest)
        × (w ∷ rest ≡ ws)
  unfolding create_sendings
  create_sendings_inv s ss ws made =
      let (w, one, more) =
        bind_ok (create_sending ctr present s.opened s.name s.content s.attempt) _ ws made in
      let (rest, two, all) = bind_ok (create_sendings ctr present ss) _ ws more in
      (w, rest, one, two, cc)

  Runs : ℕ → List Source → List Sending → List Sending → Type 0
  Runs i ss before ws =
      (ws' : List Sending) × (run_tasks (client_tasks ctr random accepts i ss) (before ++ ws)
        ≡ (done tt, before ++ ws'))
      × AllSent ctr random accepts i ss ws ws'

  tasks_lem :
      (ss : List Source) (ws before : List Sending) (i : ℕ)
      → length before ≡ i
      → create_sendings ctr present ss ≡ ok ws
      → Runs i ss before ws
  unfolding Runs create_sendings client_tasks run_tasks
  tasks_lem [] ws before i e made =
      let none_left : [] ≡ ws = cc in subst (Runs i [] before) none_left ([], refl, tt)
  tasks_lem (s ∷ ss) ws before i e made =
      let (w, rest, one, two, all) = create_sendings_inv s ss ws made in
      let task = send_file ctr (λ n. ok (random i n)) (accepts i) (length s.content + 1) s.name in
      let (first, segments, w', named, sealed, sent, client) =
        send_file_lem ctr (random i) (accepts i) present s.opened s.name s.content s.attempt w
          one in
      let here : on_client i task (before ++ w ∷ rest) ≡ (done tt, before ++ w' ∷ rest) =
        subst (λ n. on_client n task (before ++ w ∷ rest) ≡ (done tt, before ++ w' ∷ rest)) e
          (on_client_at before task w rest
            ∙ ap (λ (r : Outcome (Unit {0}) × Sending). (r.0, before ++ r.1 ∷ rest)) sent) in
      let next = append_assoc before (w' ∷ []) rest in
      let (ws', run, others) =
        tasks_lem ss rest (before ++ (w' ∷ [])) (suc i)
          (omega (arith, length-append before (w' ∷ []), e)) two in
      subst (Runs i (s ∷ ss) before) all (
        w' ∷ ws',
        bind_done (on_client i task) (run_tasks (client_tasks ctr random accepts (suc i) ss))
              (before ++ w ∷ rest) (before ++ w' ∷ rest) here
            ∙ ap (run_tasks (client_tasks ctr random accepts (suc i) ss)) (sym next)
            ∙ run
            ∙ ap (λ l. (done tt, l)) (append_assoc before (w' ∷ []) ws'),
        ((first, segments, named, sealed, client), others),
      )

-- The client's process, given several files for each of which its objects could be made: the tasks
-- are run in the order of the files, none of them throws, and each file goes over its own client as
-- if it were the only one, whether the clients of the others have connected or not. This is while the
-- random generators do not fail.
pub files_sent :
    (ctr : CtrMode) (random : ℕ → ℕ → List ℕ) (accepts : ℕ → List ℕ → List ℕ → ℕ)
    (present : FilePath → Bool) (ss : List Source) (ws : List Sending)
    → create_sendings ctr present ss ≡ ok ws
    → (ws' : List Sending) × (run_network_task (client_tasks ctr random accepts 0 ss) (pure tt) ws
        ≡ (done tt, ws'))
      × AllSent ctr random accepts 0 ss ws ws'
unfolding run_network_task Runs
files_sent ctr random accepts present ss ws made =
    let (ws', run, sent) = tasks_lem ctr random accepts present ss ws [] 0 refl made in
    (ws', ground (arith, run), sent)
