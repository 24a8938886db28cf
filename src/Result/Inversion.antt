-- ===== src/Result/Inversion.antt =====
-- What the parts of a call did when the whole returned true.
use zenoh_cpp.Base.{◌≡◌, refl, Bool, true, false, Option, none, some}
use zenoh_cpp.Result.{
  ZResult, z_ok, Run, returned, threw, M, ◌>>=◌, result_check, succeeded, and_then,
}
use zenoh_cpp.Result.Modes.{checked}

checked_code :
    {S : Type 0} (c : ZResult) (err : Option ZResult) (s : S) {err' : Option ZResult} {s' : S}
    → (result_check c >>= λ _. succeeded) err s ≡ returned true err' s'
    → (c ≡ z_ok) × (s ≡ s')
unfolding result_check succeeded
checked_code z_ok none s h = (refl, cc)
checked_code z_ok (some e) s h = (refl, cc)
checked_code _ none s h = absurd (cc)
checked_code _ (some e) s h = absurd (cc)

pub checked-returned :
    {S : Type 0} (f : S → ZResult × S) (err : Option ZResult) (s : S) {err' : Option ZResult}
    {s' : S}
    → checked f err s ≡ returned true err' s'
    → ((f s).0 ≡ z_ok) × ((f s).1 ≡ s')
checked-returned f err s h = checked_code (f s).0 err (f s).1 h

pub and_then-returned :
    {S : Type 0} (a b : M S Bool) (err : Option ZResult) (s : S) {err' : Option ZResult} {s' : S}
    → and_then a b err s ≡ returned true err' s'
    → (err₁ : Option ZResult) × (s₁ : S) × (a err s ≡ returned true err₁ s₁)
      × (b err₁ s₁ ≡ returned true err' s')
unfolding and_then
and_then-returned {S} a b err s {err'} {s'} h = split (a err s) refl
  where
    split :
        (r : Run S Bool)
        → a err s ≡ r
        → (err₁ : Option ZResult) × (s₁ : S) × (a err s ≡ returned true err₁ s₁)
          × (b err₁ s₁ ≡ returned true err' s')
    split (returned true err₁ s₁) e = (err₁, s₁, e, (rw (e, ◌>>=◌) at h))
    split (returned false err₁ s₁) e = absurd (cc (rw (e, ◌>>=◌) at h))
    split (threw c s₁) e = absurd (cc (rw (e, ◌>>=◌) at h))

-- A call that returned, and what follows it.
pub bind_step :
    {S A B : Type 0} (m : M S A) (f : A → M S B) {err err' : Option ZResult} {s s' : S} {a : A}
    {r : Run S B}
    → m err s ≡ returned a err' s'
    → f a err' s' ≡ r
    → (m >>= f) err s ≡ r
bind_step m f e h = rw (e, ◌>>=◌) h

pub bind_threw :
    {S A B : Type 0} (m : M S A) (f : A → M S B) {err : Option ZResult} {s s' : S} {c : ZResult}
    → m err s ≡ threw c s'
    → (m >>= f) err s ≡ threw c s'
bind_threw m f e = rw (e, ◌>>=◌)
