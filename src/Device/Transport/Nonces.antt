-- ===== src/Device/Transport/Nonces.antt =====
-- device/send.go: the nonces that the packets of a keypair get.
use wgservermgr.Prelude.{
  ℕ, suc, ◌+◌, ◌-◌, ◌%◌, ◌^◌, ◌≤◌, ◌<◌, ◌≡◌, refl, sym, false, some, List, [], ◌∷◌, ◌++◌, ltb, leb,
  arith, Bool-cases, inl, inr, subst, ◌⊎◌,
}
use wgservermgr.Device.Transport.State.{Element}
use wgservermgr.Device.Transport.Send.{reject_after_messages, assign_nonces}

-- The elements carry the keypair and nonces that rise from one bound to another, all below the
-- limit of the protocol.
unfoldable pub Rising : ℕ → ℕ → List Element → ℕ → Type 0
Rising k low [] high = low ≤ high
Rising k low (elem ∷ elems) high =
    (elem.keypair ≡ some k)
    × (low ≤ elem.nonce)
    × (elem.nonce < reject_after_messages)
    × Rising k (suc elem.nonce) elems high

pub Rising-widen :
    (k low low' : ℕ) (elems : List Element) (high : ℕ)
    → low ≤ low'
    → Rising k low' elems high
    → Rising k low elems high
unfolding Rising
Rising-widen k low low' [] high le r = ground arith
Rising-widen k low low' (elem ∷ elems) high le r = ground arith

pub Rising-le : (k low : ℕ) (elems : List Element) (high : ℕ) → Rising k low elems high → low ≤ high
unfolding Rising
Rising-le k low [] high r = r
Rising-le k low (elem ∷ elems) high (same, le, lt, r) =
    omega (arith, le, Rising-le k (suc elem.nonce) elems high r)

pub Rising-append :
    (k low : ℕ) (a : List Element) (mid : ℕ) (b : List Element) (high : ℕ)
    → Rising k low a mid
    → Rising k mid b high
    → Rising k low (a ++ b) high
unfolding Rising
Rising-append k low [] mid b high r s = Rising-widen k low mid b high r s
Rising-append k low (elem ∷ a) mid b high (same, le, lt, r) s =
    (same, le, lt, Rising-append k (suc elem.nonce) a mid b high r s)

-- What one container leads to: only a counter at the limit puts elements back.
unfoldable pub Assigned : ℕ → ℕ → ℕ × List Element × List Element → Type 0
Assigned k low (counter, kept, out_of_order) =
    Rising k low kept counter
    × (counter ≤ reject_after_messages)
    × ((out_of_order ≡ []) ⊎ (counter ≡ reject_after_messages))

assign_nonces-below :
    (k counter : ℕ) (elem : Element) (elems : List Element)
    → counter < reject_after_messages
    → assign_nonces k counter (elem ∷ elems) ≡ (
        let (counter', kept, out_of_order) = assign_nonces k (suc counter) elems in
        (counter', record elem { nonce = counter; keypair = some k } ∷ kept, out_of_order))
unfolding assign_nonces
assign_nonces-below k counter elem elems lt =
    let added : ((counter + 1) % 2 ^ 64) ≡ suc counter = omega arith in
    let nonce : ((suc counter + (2 ^ 64 - 1)) % 2 ^ 64) ≡ counter = omega arith in
    let test : leb reject_after_messages counter ≡ false = ground arith in rw (added, nonce, test)

assign_nonces-limit :
    (k : ℕ) (elem : Element) (elems : List Element)
    → assign_nonces k reject_after_messages (elem ∷ elems) ≡ (
        let (counter, kept, out_of_order) = assign_nonces k reject_after_messages elems in
        (counter, kept, record elem { nonce = reject_after_messages } ∷ out_of_order))
unfolding assign_nonces
assign_nonces-limit k elem elems = refl

assign_nonces-Assigned_limit :
    (k : ℕ) (elems : List Element)
    → Assigned k reject_after_messages (assign_nonces k reject_after_messages elems)
unfolding assign_nonces Assigned Rising
assign_nonces-Assigned_limit k [] = ground arith
assign_nonces-Assigned_limit k (elem ∷ elems) =
    let (rising, le, limit) = assign_nonces-Assigned_limit k elems in
    subst (Assigned k reject_after_messages) (sym (assign_nonces-limit k elem elems))
      (rising, le, inr (omega (arith, le, Rising-le k reject_after_messages _ _ rising)))

pub assign_nonces-Assigned :
    (k counter : ℕ) (elems : List Element)
    → counter ≤ reject_after_messages
    → Assigned k counter (assign_nonces k counter elems)
unfolding assign_nonces Assigned Rising
assign_nonces-Assigned k counter [] le = ground arith
assign_nonces-Assigned k counter (elem ∷ elems) le =
    elim (Bool-cases (ltb counter reject_after_messages)) [
      | inl t ↦
          let lt : counter < reject_after_messages = ground arith in
          let (rising, le', limit) = assign_nonces-Assigned k (suc counter) elems (omega arith) in
          subst (Assigned k counter) (sym (assign_nonces-below k counter elem elems lt))
            ((refl, omega arith, lt, rising), le', limit)
      | inr t ↦
          let same : counter ≡ reject_after_messages = ground arith in
          subst (λ n. Assigned k n (assign_nonces k n (elem ∷ elems))) (sym same)
            (assign_nonces-Assigned_limit k (elem ∷ elems))
    ]
