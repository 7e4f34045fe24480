-- ===== src/Network/Server/Lookup.antt =====
-- TCPServer.h and TCPConnection.h: the connection with a number, and what a callback does to it.
use multithreading_io.Base.{
  ℕ, zero, suc, ◌≡◌, ◌≢◌, ◌<◌, ◌≤◌, true, false, Option, none, some, List, [], ◌∷◌, All, ◌==◌,
  if◌then◌else◌, Bool-cases, inl, inr, refl, ap, subst, sym, ◌∙◌, arith,
}
use multithreading_io.Wire.Cipher.{CtrMode}
use multithreading_io.FileStream.Disk.{Disk}
use multithreading_io.Network.{handled}
use multithreading_io.Network.Server.{Received, Connection, on_receive, deliver}
use multithreading_io.Network.Server.Identity.{countdown, ids, on_receive_ids}

abbrev pub find : ℕ → List Connection → Option Connection
find k [] = none
find k (c ∷ cs) = if c.id == k then some c else find k cs

-- No two connections have this number.
abbrev pub Once : ℕ → List Connection → Type 0
Once k [] = Unit
Once k (c ∷ cs) = if c.id == k then (find k cs ≡ none) else Once k cs

same_id : (a b : ℕ) → (a == b) ≡ true → a ≡ b
same_id a b h = ground (arith, h)

some_inj : (x c : Connection) → some x ≡ some c → x ≡ c
some_inj x c e = cc

found_none :
    (k : ℕ) (x : Connection) (cs : List Connection) → find k (x ∷ cs) ≡ none → (x.id == k) ≡ false
found_none k x cs f = ground (arith, f)

pub found_le :
    (n k : ℕ) (cs : List Connection) (c : Connection)
    → ids cs ≡ countdown n
    → find k cs ≡ some c
    → k ≤ n
found_le n k [] c e f = absurd (cc)
found_le zero k (x ∷ cs) c e f = absurd (cc)
found_le (suc n) k (x ∷ cs) c e f =
    let i : x.id ≡ suc n = cc in
    let e' : ids cs ≡ countdown n = cc in
    elim (Bool-cases (x.id == k)) [
      | inl t ↦ omega (arith, same_id x.id k t, i)
      | inr t ↦
          let f' : find k cs ≡ some c = ground (arith, f, t) in
          omega (arith, found_le n k cs c e' f')
    ]

absent : (n k : ℕ) (cs : List Connection) → n < k → ids cs ≡ countdown n → find k cs ≡ none
absent n k [] h e = refl
absent zero k (x ∷ cs) h e = absurd (cc)
absent (suc n) k (x ∷ cs) h e =
    let i : x.id ≡ suc n = cc in
    let e' : ids cs ≡ countdown n = cc in ground (arith, i, absent n k cs, e')

pub countdown-Once : (n k : ℕ) (cs : List Connection) → ids cs ≡ countdown n → Once k cs
countdown-Once n k [] e = tt
countdown-Once zero k (x ∷ cs) e = absurd (cc)
countdown-Once (suc n) k (x ∷ cs) e =
    let i : x.id ≡ suc n = cc in
    let e' : ids cs ≡ countdown n = cc in
    elim (Bool-cases (x.id == k)) [
      | inl t ↦
          let l : n < k = omega (arith, same_id x.id k t, i) in
          ground (arith, t, absent n k cs l e')
      | inr t ↦ ground (arith, t, countdown-Once n k cs e')
    ]

pub found_with {ℓ} :
    (P : Connection → Type ℓ) (k : ℕ) (cs : List Connection) (c : Connection)
    → All P cs
    → find k cs ≡ some c
    → P c × (c.id ≡ k)
found_with P k [] c h f = absurd (cc)
found_with P k (x ∷ cs) c h f = elim (Bool-cases (x.id == k)) [
  | inl t ↦
      let y : x ≡ c = some_inj x c (ground (arith, f, t)) in
      (subst P y h.0, ap (λ (z : Connection). z.id) (sym y) ∙ same_id x.id k t)
  | inr t ↦ found_with P k cs c h.1 (ground (arith, f, t))
]

module _ (ctr : CtrMode) where
  deliver_absent :
      (k : ℕ) (r : Received) (cs : List Connection) (d : Disk)
      → find k cs ≡ none
      → deliver ctr k r cs d ≡ (handled, cs, d)
  unfolding deliver
  deliver_absent k r [] d f = refl
  deliver_absent k r (x ∷ cs) d f =
      let g : (x.id == k) ≡ false = found_none k x cs f in
      ground (arith, g, f, deliver_absent k r cs d)

  pub deliver_found :
      (k : ℕ) (r : Received) (cs : List Connection) (c : Connection) (d : Disk)
      → Once k cs
      → find k cs ≡ some c
      → c.reading ≡ true
      → let o = on_receive ctr r c d in
        let t = deliver ctr k r cs d in (t.0 ≡ o.0) × (find k t.1 ≡ some o.1) × (t.2 ≡ o.2)
  unfolding deliver
  deliver_found k r [] c d once f h = absurd (cc)
  deliver_found k r (x ∷ cs) c d once f h = elim (Bool-cases (x.id == k)) [
    | inl t ↦
        let y : x ≡ c = some_inj x c (ground (arith, f, t)) in
        let w : x.reading ≡ true = ap (λ (z : Connection). z.reading) y ∙ h in
        let (i, _) = on_receive_ids ctr r x d in
        subst
          (λ z.
            let o = on_receive ctr r z d in
            let u = deliver ctr k r (x ∷ cs) d in
            (u.0 ≡ o.0) × (find k u.1 ≡ some o.1) × (u.2 ≡ o.2))
          y (ground (arith, t, w, i))
    | inr t ↦
        let f' : find k cs ≡ some c = ground (arith, f, t) in
        let o' : Once k cs = ground (arith, once, t) in
        ground (arith, t, deliver_found k r cs c d o' f' h)
  ]

  pub deliver_idle :
      (k : ℕ) (r : Received) (cs : List Connection) (c : Connection) (d : Disk)
      → Once k cs
      → find k cs ≡ some c
      → c.reading ≡ false
      → deliver ctr k r cs d ≡ (handled, cs, d)
  unfolding deliver
  deliver_idle k r [] c d once f h = refl
  deliver_idle k r (x ∷ cs) c d once f h = elim (Bool-cases (x.id == k)) [
    | inl t ↦
        let y : x ≡ c = some_inj x c (ground (arith, f, t)) in
        let w : x.reading ≡ false = ap (λ (z : Connection). z.reading) y ∙ h in
        let n : find k cs ≡ none = ground (arith, once, t) in
        ground (arith, t, w, deliver_absent k r cs d n)
    | inr t ↦
        let f' : find k cs ≡ some c = ground (arith, f, t) in
        let o' : Once k cs = ground (arith, once, t) in
        ground (arith, t, deliver_idle k r cs c d o' f' h)
  ]

  pub deliver_other :
      (j k : ℕ) (r : Received) (cs : List Connection) (d : Disk)
      → j ≢ k
      → find k (deliver ctr j r cs d).1 ≡ find k cs
  unfolding deliver
  deliver_other j k r [] d ne = refl
  deliver_other j k r (x ∷ cs) d ne =
      let (i, _) = on_receive_ids ctr r x d in ground (arith, i, ne, deliver_other j k r cs d ne)
