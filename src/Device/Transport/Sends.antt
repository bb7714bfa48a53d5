-- ===== src/Device/Transport/Sends.antt =====
-- device/send.go: the packets that a keypair sends, with the nonces that they carry.
use wgservermgr.Prelude.{ℕ, ◌≤◌, ◌≡◌, refl, sym, ap, ◌∙◌, List, [], ◌∷◌, ◌++◌, subst}
use wgservermgr.Device.Transport.State.{Element, Link}
use wgservermgr.Device.Transport.Nonces.{Rising, Rising-append}

abbrev pub send_nonce_of : ℕ → Link → ℕ
send_nonce_of k l = (l.device.keypairs k).send_nonce

abbrev pub joined : List (List Element) → List Element
joined [] = []
joined (elems ∷ containers) = elems ++ joined containers

-- Containers are added to the queue of the keypair, whose nonces rise with the counter.
pub record Sends (k : ℕ) (l l' : Link) : Type 0 where
  pub new : List (List Element)
  pub outbound : l'.outbound ≡ l.outbound ++ new
  pub rising : Rising k (send_nonce_of k l) (joined new) (send_nonce_of k l')

pub append_nil {ℓ} : {A : Type ℓ} (xs : List A) → xs ++ [] ≡ xs
append_nil [] = refl
append_nil (x ∷ xs) = ap (λ ys. x ∷ ys) (append_nil xs)

append_assoc {ℓ} : {A : Type ℓ} (xs ys zs : List A) → (xs ++ ys) ++ zs ≡ xs ++ (ys ++ zs)
append_assoc [] ys zs = refl
append_assoc (x ∷ xs) ys zs = ap (λ ws. x ∷ ws) (append_assoc xs ys zs)

joined-append : (a b : List (List Element)) → joined (a ++ b) ≡ joined a ++ joined b
joined-append [] b = refl
joined-append (elems ∷ a) b =
    ap (λ c. elems ++ c) (joined-append a b) ∙ sym (append_assoc elems (joined a) (joined b))

-- Nothing is added.
pub none-Sends :
    (k : ℕ) (l l' : Link)
    → l'.outbound ≡ l.outbound
    → send_nonce_of k l ≤ send_nonce_of k l'
    → Sends k l l'
unfolding Rising
none-Sends k l l' same le = record {
  new = [];
  outbound = same ∙ sym (append_nil l.outbound);
  rising = le;
}

pub Sends-trans : (k : ℕ) (a b c : Link) → Sends k a b → Sends k b c → Sends k a c
Sends-trans k a b c s t = record {
  new = s.new ++ t.new;
  outbound = t.outbound ∙ ap (λ q. q ++ t.new) s.outbound ∙ append_assoc a.outbound s.new t.new;
  rising =
      subst (λ es. Rising k (send_nonce_of k a) es (send_nonce_of k c))
        (sym (joined-append s.new t.new))
        (Rising-append k (send_nonce_of k a) (joined s.new) (send_nonce_of k b) (joined t.new)
          (send_nonce_of k c) s.rising t.rising);
}
