-- ===== src/Prelude/Slices.antt =====
-- What a write of a field leaves of a slice.
use Prim.Native.Nat.{ℕ, zero, suc, ◌+◌, ◌≤◌}
use native.Mathlib.Omega.{arith}
use mathlib.Core.Path.{◌≡◌, refl, ap, ◌∙◌}
use mathlib.Core.List.{[], ◌∷◌, ◌++◌, append-nil}
use wgservermgr.Prelude.Lists.{length}
use wgservermgr.Prelude.Bytes.{Bytes, take, drop, copy, copy_at, copy-drop, take-append, drop-all}

length-copy : (b src : Bytes) → length (copy b src) ≡ length b
unfolding copy
length-copy [] src = refl
length-copy (x ∷ b) [] = refl
length-copy (x ∷ b) (y ∷ src) = ap suc (length-copy b src)

pub length-copy_at : (n : ℕ) (src b : Bytes) → length (copy_at n src b) ≡ length b
unfolding copy_at
length-copy_at zero src b = length-copy b src
length-copy_at (suc n) src [] = refl
length-copy_at (suc n) src (x ∷ b) = ap suc (length-copy_at n src b)

-- A write keeps what stands before it.
pub take-copy_at : (k n : ℕ) (src b : Bytes) → k ≤ n → take k (copy_at n src b) ≡ take k b
unfolding take copy_at
take-copy_at zero n src b h = refl
take-copy_at (suc k) zero src b h = absurd (omega arith)
take-copy_at (suc k) (suc n) src [] h = refl
take-copy_at (suc k) (suc n) src (x ∷ b) h = ap (◌∷◌ x) (take-copy_at k n src b (omega arith))

pub field-copy_at :
    (k j n : ℕ) (src b : Bytes) → j + k ≤ n → take k (drop j (copy_at n src b)) ≡ take k (drop j b)
unfolding drop copy_at
field-copy_at k zero n src b h = take-copy_at k n src b (omega arith)
field-copy_at k (suc j) zero src b h = absurd (omega arith)
field-copy_at k (suc j) (suc n) src [] h = refl
field-copy_at k (suc j) (suc n) src (x ∷ b) h = field-copy_at k j n src b (omega arith)

-- What a write puts there.
pub copy_at-written :
    (n : ℕ) (src b : Bytes)
    → n + length src ≤ length b
    → take (length src) (drop n (copy_at n src b)) ≡ src
unfolding drop copy_at
copy_at-written zero src b h =
    ap (take (length src)) (copy-drop b src (omega arith)) ∙ take-append src _ (length src) refl
copy_at-written (suc n) src [] h = absurd (omega arith)
copy_at-written (suc n) src (x ∷ b) h = copy_at-written n src b (omega arith)

pub copy_at-last :
    (n : ℕ) (src b : Bytes) → n + length src ≡ length b → drop n (copy_at n src b) ≡ src
unfolding drop copy_at
copy_at-last zero src b h =
    copy-drop b src (omega arith)
    ∙ ap (◌++◌ src) (drop-all (length src) b (omega arith))
    ∙ append-nil src
copy_at-last (suc n) src [] h = absurd (omega arith)
copy_at-last (suc n) src (x ∷ b) h = copy_at-last n src b (omega arith)
