-- ===== src/Volume/Steps.antt =====
-- The first step of a sequence that succeeds has succeeded.
use carina.Base.{◌≡◌, refl}
use carina.Errors.{Result, ok, err}
use carina.Volume.{Op, continue}

pub continue-ok :
    {W A B : Type 0} (x : Result A × W) (next : A → Op W B) {b : B} {w : W}
    → continue x next ≡ (ok b, w)
    → (a : A) × (x ≡ (ok a, x.1)) × (next a x.1 ≡ (ok b, w))
continue-ok (err e, w) next h = cc h
continue-ok (ok a, w) next h = (a, refl, h)
