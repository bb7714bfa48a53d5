-- ===== src/Device/Transport/Staged.antt =====
-- device/send.go: `SendStagedPackets` returns, and what it hands on carries fresh nonces.
use wgservermgr.Prelude.{
  ℕ, zero, suc, ◌+◌, ◌*◌, ◌≤◌, ◌≡◌, refl, sym, ap, ◌∙◌, Bool, true, false, not, ◌||◌, Option, none,
  some, List, [], ◌∷◌, ◌++◌, ◌==◌, length, if◌then◌else◌, arith, Bool-cases, inl, inr, subst, ◌⊎◌,
}
use wgservermgr.Device.Noise.State.{Device, Keypair, Keypairs}
use wgservermgr.Device.Noise.Agreement.{update_self}
use wgservermgr.Device.Transport.State.{Element, Link, Host, Outside, is_up, is_running}
use wgservermgr.Device.Transport.Send.{
  reject_after_messages, assign_nonces, Place, returned, at_top, in_loop, enqueue, enqueue_some,
  restage, next_place, take_container, in_loop_step, choose_keypair, at_top_step, send_staged_from,
  send_staged_packets, is_spent, set_send_nonce,
}
use wgservermgr.Device.Transport.Steady.{Steady, Steady-refl}
use wgservermgr.Device.Transport.Steady.Initiation.{send_handshake_initiation-Steady}
use wgservermgr.Device.Transport.Nonces.{Rising, Rising-le, Assigned, assign_nonces-Assigned}
use wgservermgr.Device.Transport.Sends.{send_nonce_of, Sends, append_nil, none-Sends, Sends-trans}

-- How many turns are left where the counter of the keypair and the number of staged containers are
-- known.
Ready : ℕ → ℕ → ℕ → ℕ → Place → Type 0
Ready k fuel counter staged returned = Unit
Ready k fuel counter staged at_top =
    (2 * staged + 2 ≤ fuel) ⊎ ((1 ≤ fuel) × (counter ≡ reject_after_messages))
Ready k fuel counter staged (in_loop j) =
    (j ≡ k) × (2 * staged + 1 ≤ fuel) × (counter ≤ reject_after_messages)

module _ (h : Host) (o : Outside) (k : ℕ) where
  IsCurrent : Link → Type 0
  IsCurrent l = (l.device.peers h.peer).keypairs.current ≡ some k

  -- What one turn leads to.
  record Turned (fuel : ℕ) (l : Link) (r : Link × Place) : Type 0 where
    current : IsCurrent r.0
    ready : Ready k fuel (send_nonce_of k r.0) (length r.0.staged) r.1
    sends : Sends k l r.0

  Steady-Sends : (l l' : Link) → Steady h l l' → Sends k l l'
  Steady-Sends l l' s = none-Sends k l l' s.outbound (
      subst (λ (f : ℕ → Keypair). send_nonce_of k l ≤ (f k).send_nonce) (sym s.keypairs)
        (omega arith))

  Steady-Turned :
      (fuel : ℕ) (l l' : Link) → IsCurrent l → Steady h l l' → Turned fuel l (l', returned)
  unfolding Ready IsCurrent
  Steady-Turned fuel l l' c s = record {
    current = ap (λ (p : Keypairs). p.current) s.held ∙ c;
    ready = tt;
    sends = Steady-Sends l l' s;
  }

  -- A container whose nonces are given, in the queue or not.
  record Enqueued (l l1 l2 : Link) : Type 0 where
    device : l2.device ≡ l1.device
    staged : l2.staged ≡ l1.staged
    sends : Sends k l l2

  if-Enqueued :
      (b : Bool) (kept : List Element) (l l1 : Link)
      → l1.outbound ≡ l.outbound
      → Rising k (send_nonce_of k l) kept (send_nonce_of k l1)
      → Enqueued l l1 (if b then record l1 { outbound = l1.outbound ++ (kept ∷ []) } else l1)
  if-Enqueued true kept l l1 same rising = record {
    device = refl;
    staged = refl;
    sends = record {
      new = kept ∷ [];
      outbound = ap (λ q. q ++ (kept ∷ [])) same;
      rising =
          subst (λ es. Rising k (send_nonce_of k l) es (send_nonce_of k l1)) (sym (append_nil kept))
            rising;
    };
  }
  if-Enqueued false kept l l1 same rising = record {
    device = refl;
    staged = refl;
    sends = none-Sends k l l1 same (Rising-le k _ kept _ rising);
  }

  enqueue_some-Enqueued :
      (kept : List Element) (l l1 : Link)
      → l1.outbound ≡ l.outbound
      → Rising k (send_nonce_of k l) kept (send_nonce_of k l1)
      → Enqueued l l1 (enqueue_some h o kept l1)
  unfolding enqueue
  enqueue_some-Enqueued [] l l1 same rising = record {
    device = refl;
    staged = refl;
    sends = none-Sends k l l1 same (Rising-le k _ [] _ rising);
  }
  enqueue_some-Enqueued (elem ∷ kept) l l1 same rising =
      if-Enqueued (is_running h l1) (elem ∷ kept) l l1 same rising

  -- Where the loop goes on, its counter known.
  next_place-Ready :
      (fuel low counter : ℕ) (kept out_of_order : List Element) (rest : List (List Element))
      → Assigned k low (counter, kept, out_of_order)
      → 2 * suc (length rest) ≤ fuel
      → Ready k fuel counter
          (length (restage h o out_of_order rest))
          (next_place h o k kept out_of_order)
  unfolding Ready Assigned
  next_place-Ready fuel low counter [] [] rest (rising, le, limit) enough = inl (omega arith)
  next_place-Ready fuel low counter [] (late ∷ es) rest (rising, le, limit) enough =
      inr (omega arith, ground (arith, limit))
  next_place-Ready fuel low counter (e ∷ kept) [] rest (rising, le, limit) enough =
      (refl, omega arith, le)
  next_place-Ready fuel low counter (e ∷ kept) (late ∷ es) rest (rising, le, limit) enough =
      inr (omega arith, ground (arith, limit))

  take_container-Turned :
      (fuel : ℕ) (staged : List (List Element)) (l : Link)
      → IsCurrent l
      → 2 * length staged ≤ fuel
      → send_nonce_of k l ≤ reject_after_messages
      → Turned fuel l (take_container h o k staged l)
  unfolding take_container Ready IsCurrent Assigned
  take_container-Turned fuel [] l c enough le = record {
    current = c;
    ready = tt;
    sends = none-Sends k l l refl (omega arith);
  }
  take_container-Turned fuel (elems ∷ staged) l c enough le =
      let t = assign_nonces k (send_nonce_of k l) elems in
      let assigned = assign_nonces-Assigned k (send_nonce_of k l) elems le in
      let l1 : Link = record l {
        device = set_send_nonce k t.0 l.device;
        staged = restage h o t.2 staged;
      } in
      let counted : send_nonce_of k l1 ≡ t.0 =
        ap (λ (p : Keypair). p.send_nonce) (update_self l.device.keypairs k _) in
      let e =
        enqueue_some-Enqueued t.1 l l1 refl
          (subst (Rising k (send_nonce_of k l) t.1) (sym counted) assigned.0) in
      let l2 = enqueue_some h o t.1 l1 in
      let place = next_place h o k t.1 t.2 in
      record {
        current = ap (λ (d : Device). (d.peers h.peer).keypairs.current) e.device ∙ c;
        ready =
            subst (λ n. Ready k fuel n (length l2.staged) place)
              (sym (ap (λ (d : Device). (d.keypairs k).send_nonce) e.device ∙ counted))
              (subst (λ q. Ready k fuel t.0 (length q) place) (sym e.staged)
                (next_place-Ready fuel (send_nonce_of k l) t.0 t.1 t.2 staged assigned enough));
        sends = e.sends;
      }

  -- A keypair that is not spent is below the limit, so the turns are left that the containers need.
  unspent-Ready :
      (fuel : ℕ) (l : Link)
      → Ready k (suc fuel) (send_nonce_of k l) (length l.staged) at_top
      → is_spent h o (l.device.keypairs k) ≡ false
      → (2 * length l.staged + 1 ≤ fuel) × (send_nonce_of k l ≤ reject_after_messages)
  unfolding Ready is_spent
  unspent-Ready fuel l ready usable = ground (arith, ready, usable)

  choose_keypair-Turned :
      (fuel : ℕ) (l : Link)
      → IsCurrent l
      → Ready k (suc fuel) (send_nonce_of k l) (length l.staged) at_top
      → Turned fuel l (choose_keypair h o (some k) l)
  unfolding choose_keypair Ready
  choose_keypair-Turned fuel l c ready = elim (Bool-cases (is_spent h o (l.device.keypairs k))) [
    | inl spent ↦
        rw (choose_keypair, spent)
          (Steady-Turned fuel l _ c (send_handshake_initiation-Steady h o false l))
    | inr usable ↦
        rw (choose_keypair, usable)
          (record {
            current = c;
            ready = let (enough, le) = unspent-Ready fuel l ready usable in (refl, enough, le);
            sends = none-Sends k l l refl (omega arith);
          })
  ]

  at_top-Turned :
      (fuel : ℕ) (l : Link)
      → IsCurrent l
      → Ready k (suc fuel) (send_nonce_of k l) (length l.staged) at_top
      → Turned fuel l (at_top_step h o l)
  unfolding at_top_step IsCurrent
  at_top-Turned fuel l c ready = elim (Bool-cases ((length l.staged == 0) || not (is_up l.state))) [
    | inl e ↦ rw (at_top_step, e) (Steady-Turned fuel l l c (Steady-refl h l))
    | inr e ↦
        rw (at_top_step, e)
          (subst (λ (p : Option ℕ). Turned fuel l (choose_keypair h o p l)) (sym c)
            (choose_keypair-Turned fuel l c ready))
  ]

  -- From a place with enough turns on.
  send_staged_from-Sends :
      (fuel : ℕ) (l : Link) (place : Place)
      → IsCurrent l
      → Ready k fuel (send_nonce_of k l) (length l.staged) place
      → (l' : Link) × (send_staged_from h o fuel (l, place) ≡ some l') × Sends k l l'
  unfolding send_staged_from in_loop_step Ready
  send_staged_from-Sends fuel l returned c ready = (l, refl, none-Sends k l l refl (omega arith))
  send_staged_from-Sends zero l at_top c ready = ground (arith, ready)
  send_staged_from-Sends zero l (in_loop j) c (same, enough, le) = ground (arith, enough)
  send_staged_from-Sends (suc fuel) l at_top c ready =
      let t = at_top-Turned fuel l c ready in
      let r = at_top_step h o l in
      let (l', returns, sends) = send_staged_from-Sends fuel r.0 r.1 t.current t.ready in
      (l', returns, Sends-trans k l r.0 l' t.sends sends)
  send_staged_from-Sends (suc fuel) l (in_loop j) c (same, enough, le) =
      let t = take_container-Turned fuel l.staged l c (omega arith) le in
      let r = take_container h o k l.staged l in
      let (l', returns, sends) = send_staged_from-Sends fuel r.0 r.1 t.current t.ready in
      (
        l',
        subst (λ n. send_staged_from h o fuel (take_container h o n l.staged l) ≡ some l')
            (sym same) returns,
        Sends-trans k l r.0 l' t.sends sends,
      )

  -- With a current keypair, `SendStagedPackets` returns; the packets that it hands on carry that
  -- keypair, and nonces that rise from the keypair's counter on, stay below RejectAfterMessages,
  -- and end below the counter that is left.
  pub send_staged_packets-Sends :
      (l : Link)
      → (l.device.peers h.peer).keypairs.current ≡ some k
      → (send_staged_from h o (2 * length l.staged + 2) (l, at_top)
          ≡ some (send_staged_packets h o l))
        × Sends k l (send_staged_packets h o l)
  unfolding send_staged_packets IsCurrent Ready
  send_staged_packets-Sends l c =
      let (l', returns, sends) =
        send_staged_from-Sends (2 * length l.staged + 2) l at_top c (inl (omega arith)) in
      let same : send_staged_packets h o l ≡ l' =
        ap (λ (r : Option Link). elim r as (λ x. Link) [ none ↦ l | some l' ↦ l' ]) returns in
      (returns ∙ ap some (sym same), subst (Sends k l) (sym same) sends)
