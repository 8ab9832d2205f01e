-- ===== src/World/Runs.antt =====
-- Running one step after another.
use pocketclaw_telegram.Prelude.{◌≡◌, refl, ap}
use pocketclaw_telegram.World.{World, Ran, ok, threw, M, continue, ◌>>=◌, ◌>>◌}

pub run_ok :
    {A B : Type 0} (m : M A) (f : A → M B) {w w' : World} {a : A}
    → m w ≡ ok a w'
    → (m >>= f) w ≡ f a w'
run_ok m f e = ap (λ r. continue r f) e

pub then_ok :
    {A B : Type 0} (m : M A) (n : M B) {w w' : World} {a : A} → m w ≡ ok a w' → (m >> n) w ≡ n w'
then_ok m n e = ap (λ r. continue r (λ a. n)) e

continue-eq-ok :
    {A B : Type 0} (r : Ran A) (f : A → M B) {w' : World} {b : B}
    → continue r f ≡ ok b w'
    → (a : A) × (v : World) × (r ≡ ok a v) × (f a v ≡ ok b w')
continue-eq-ok (ok a v) f h = (a, v, refl, h)
continue-eq-ok (threw v) f h = cc

-- The parts of a run that returned.
pub >>=-eq-ok :
    {A B : Type 0} (m : M A) (f : A → M B) (w : World) {w' : World} {b : B}
    → (m >>= f) w ≡ ok b w'
    → (a : A) × (v : World) × (m w ≡ ok a v) × (f a v ≡ ok b w')
>>=-eq-ok m f w h = continue-eq-ok (m w) f h

pub >>-eq-ok :
    {A B : Type 0} (m : M A) (n : M B) (w : World) {w' : World} {b : B}
    → (m >> n) w ≡ ok b w'
    → (a : A) × (v : World) × (m w ≡ ok a v) × (n v ≡ ok b w')
>>-eq-ok m n w h = continue-eq-ok (m w) (λ a. n) h
