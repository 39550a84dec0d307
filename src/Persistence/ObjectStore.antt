-- ===== src/Persistence/ObjectStore.antt =====
-- src/sastt/adapters/persistence/memory.py: `InMemoryObjectStore`, tenant by tenant.
use speaker_attributed_stt.Prelude.{
  String, ◌≡◌, refl, Bool, true, false, ◌&&◌, Option, none, some, str_eq, if◌then◌else◌,
}
use speaker_attributed_stt.Errors.{Result, ok, err, tenant_access_denied_error}

-- `_objects` is what is stored by tenant and key; the payload is opaque bytes.
module _ {B : Type 0} where
  -- `put`; the returned URI names the tenant and the key.
  unfoldable pub put_object :
      (String → String → Option B) → String → String → B → String → String → Option B
  put_object s tenant key payload t k =
      if str_eq tenant t && str_eq key k then some payload else s t k

  -- `except KeyError`
  unfoldable pub found_or_denied : Option B → Result B
  found_or_denied none = err tenant_access_denied_error
  found_or_denied (some payload) = ok payload

  unfoldable pub get_object : (String → String → Option B) → String → String → Result B
  get_object s tenant key = found_or_denied (s tenant key)

  -- `pop(key, None) is not None`
  unfoldable pub delete_object :
      (String → String → Option B) → String → String → Bool × (String → String → Option B)
  delete_object s tenant key = (
    elim (s tenant key) [ none ↦ false | some payload ↦ true ],
    λ t k. if str_eq tenant t && str_eq key k then none else s t k,
  )

  found_or_denied-if :
      (b : Bool) (x y : Option B)
      → found_or_denied (if b then x else y) ≡ (if b then found_or_denied x else found_or_denied y)
  found_or_denied-if true x y = refl
  found_or_denied-if false x y = refl

  get_object-put :
      (s : String → String → Option B) (tenant key : String) (payload : B) (t k : String)
      → get_object (put_object s tenant key payload) t k
        ≡ (if str_eq tenant t && str_eq key k then ok payload else get_object s t k)
  unfolding get_object put_object found_or_denied
  get_object-put s tenant key payload t k =
      found_or_denied-if (str_eq tenant t && str_eq key k) (some payload) (s t k)

  get_object-delete :
      (s : String → String → Option B) (tenant key t k : String)
      → get_object (delete_object s tenant key).1 t k ≡ (
          if str_eq tenant t && str_eq key k
          then err tenant_access_denied_error
          else get_object s t k)
  unfolding get_object delete_object found_or_denied
  get_object-delete s tenant key t k =
      found_or_denied-if (str_eq tenant t && str_eq key k) none (s t k)

  -- After a put the tenant reads the payload under the key and every other pair of tenant and key
  -- reads what it read before; after a delete the pair is denied and the others are as before.
  pub put_delete-get :
      (s : String → String → Option B) (tenant key t k : String) (payload : B)
      → (get_object (put_object s tenant key payload) t k
          ≡ (if str_eq tenant t && str_eq key k then ok payload else get_object s t k))
        × (get_object (delete_object s tenant key).1 t k ≡ (
            if str_eq tenant t && str_eq key k
            then err tenant_access_denied_error
            else get_object s t k))
  put_delete-get s tenant key t k payload =
      (get_object-put s tenant key payload t k, get_object-delete s tenant key t k)
