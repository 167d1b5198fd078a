-- ===== src/Prune/Execute/Trace.antt =====
-- Traces of effects: what the repository holds after them, and claims that hold throughout.
use vlbe.Base.{◌≡◌, refl, sym, subst, Bool, true, false, List, [], ◌∷◌, ◌++◌, merge, ℕ_key}
use vlbe.Restic.Blob.{ContentId, BlobHandle, handle_key}
use vlbe.Prune.Types.{PruneError, ok, err, panic}
use vlbe.Prune.Execute.{
  Effect, removed_pack, saved_blob, flushed, rewrote_index, removed_index, saved_fallback, Exec,
  resume, attempt,
}

-- The pack files that are gone, the blobs that are copied and not yet flushed, and those in new
-- pack files.
pub record World : Type 0 where
  pub gone : List ContentId
  pub pending : List BlobHandle
  pub saved : List BlobHandle

unfoldable pub apply : Effect → World → World
apply (removed_pack p) w = record w { gone = p ∷ w.gone }
apply (saved_blob h) w = record w { pending = h ∷ w.pending }
apply flushed w = record w { pending = []; saved = merge w.saved w.pending }
apply (rewrote_index ignore) w = w
apply removed_index w = w
apply (saved_fallback ignore) w = w

unfoldable pub apply_all : List Effect → World → World
apply_all [] w = w
apply_all (e ∷ t) w = apply_all t (apply e w)

-- `P` holds before the effects, after each, and at the end
abbrev pub Throughout : (World → Type 0) → List Effect → World → Type 0
Throughout P [] w = P w
Throughout P (e ∷ t) w = P w × Throughout P t (apply e w)

pub Throughout-append :
    (P : World → Type 0) (t u : List Effect) (w : World)
    → Throughout P t w
    → Throughout P u (apply_all t w)
    → Throughout P (t ++ u) w
unfolding apply_all
Throughout-append P [] u w h k = k
Throughout-append P (e ∷ t) u w h k = (h.0, Throughout-append P t u (apply e w) h.1 k)

pub apply_all-append :
    (t u : List Effect) (w : World) → apply_all (t ++ u) w ≡ apply_all u (apply_all t w)
unfolding apply_all
apply_all-append [] u w = refl
apply_all-append (e ∷ t) u w = apply_all-append t u (apply e w)

-- A chain keeps `P` if its first call does, and what follows a success does.
pub Throughout-resume {ℓ κ} :
    {A : Type ℓ} {B : Type κ} (P : World → Type 0) (m : Exec A) (f : A → Exec B) (w : World)
    → Throughout P m.0 w
    → ((a : A) → m.1 ≡ ok a → Throughout P (f a).0 (apply_all m.0 w))
    → Throughout P (resume m.0 m.1 f).0 w
unfolding resume
Throughout-resume P (t, ok a) f w h k = Throughout-append P t (f a).0 w h (k a refl)
Throughout-resume P (t, err e) f w h k = h
Throughout-resume P (t, panic) f w h k = h

-- A step relation on states that every effect of a trace respects.
abbrev pub Respects : (World → Type 0) → List Effect → Type 0
Respects P t = (w : World) → P w → Throughout P t w × P (apply_all t w)

pub Respects-nil : (P : World → Type 0) → Respects P []
unfolding apply_all
Respects-nil P w h = (h, h)

pub Respects-append :
    (P : World → Type 0) (t u : List Effect) → Respects P t → Respects P u → Respects P (t ++ u)
Respects-append P t u rt ru w h =
    let (through, after) = rt w h in
    let (through', after') = ru (apply_all t w) after in
    (Throughout-append P t u w through through', subst P (sym (apply_all-append t u w)) after')

pub Respects-resume {ℓ κ} :
    {A : Type ℓ} {B : Type κ} (P : World → Type 0) (m : Exec A) (f : A → Exec B)
    → Respects P m.0
    → ((a : A) → Respects P (f a).0)
    → Respects P (resume m.0 m.1 f).0
unfolding resume
Respects-resume P (t, ok a) f rm rf = Respects-append P t (f a).0 rm (rf a)
Respects-resume P (t, err e) f rm rf = rm
Respects-resume P (t, panic) f rm rf = rm

pub Respects-one :
    (P : World → Type 0) (e : Effect) → ((w : World) → P w → P (apply e w)) → Respects P (e ∷ [])
unfolding apply_all
Respects-one P e step w h = ((h, step w h), step w h)

pub Respects-attempt :
    (P : World → Type 0) (b : Bool) (x : PruneError) (e : Effect)
    → ((w : World) → P w → P (apply e w))
    → Respects P (attempt b x e).0
Respects-attempt P true x e step = Respects-one P e step
Respects-attempt P false x e step = Respects-nil P

pub Throughout-mono :
    (P Q : World → Type 0) (t : List Effect) (w : World)
    → ((v : World) → P v → Q v)
    → Throughout P t w
    → Throughout Q t w
Throughout-mono P Q [] w f h = f w h
Throughout-mono P Q (e ∷ t) w f h = (f w h.0, Throughout-mono P Q t (apply e w) f h.1)
