-- ===== src/Creds/Sdk.antt =====
-- opSDKVault of internal/creds/onepassword_sdk.go, over the client of the 1Password SDK.
use medea.Prelude.{Bytes, Option, none, some, List, [], ◌∷◌, ◌++◌, map, bytes, ◌==◌, if◌then◌else◌}
use medea.Error.{errorf, wrap, Result, Exec, return, raise, attempt, ◌>>=◌}

-- onepassword.ItemField, all of them concealed; Item; and the overview of a vault or an item.
pub record ItemField : Type 0 where
  pub id : Bytes
  pub title : Bytes
  pub value : Bytes

pub record Item : Type 0 where
  pub id : Bytes
  pub title : Bytes
  pub fields : List ItemField

pub record Overview : Type 0 where
  pub id : Bytes
  pub title : Bytes

-- The client, which may answer anything.
pub record SdkClient : Type 1 where
  pub State : Type 0
  pub resolve : Bytes → State → Result Bytes × State
  pub vaults : State → Result (List Overview) × State
  pub items : Bytes → State → Result (List Overview) × State
  pub create : Bytes → Bytes → List ItemField → State → Result (Unit {0}) × State
  pub get : Bytes → Bytes → State → Result Item × State
  pub put : Item → State → Result (Unit {0}) × State
  pub delete : Bytes → Bytes → State → Result (Unit {0}) × State

unfoldable pub concealed_field : Bytes × Bytes → ItemField
concealed_field (name, value) = record { id = name; title = name; value = value }

-- setField on the fields of an item.
unfoldable pub set_field : Bytes → Bytes → List ItemField → List ItemField
unfolding concealed_field
set_field name value [] = concealed_field (name, value) ∷ []
set_field name value (f ∷ fs) =
    if f.title == name then record f { value = value } ∷ fs else f ∷ set_field name value fs

-- The loop of WriteFields over the fields, a map whose order is the caller's.
unfoldable pub set_fields : List (Bytes × Bytes) → List ItemField → List ItemField
unfolding set_field
set_fields [] fs = fs
set_fields ((name, value) ∷ new) fs = set_fields new (set_field name value fs)

-- The first with the title.
unfoldable pub titled : Bytes → List Overview → Option Overview
titled name [] = none
titled name (o ∷ os) = if o.title == name then some o else titled name os

unfoldable pub reference : Bytes → Bytes → Bytes → Bytes
unfolding bytes
reference vault item field = bytes "op://" ++ vault ++ bytes "/" ++ item ++ bytes "/" ++ field

module _ ⦃client : SdkClient⦄ where
  unfoldable pub vault_id : Bytes → Exec client.State Bytes
  unfolding titled
  vault_id name =
      attempt client.vaults (λ e. raise (wrap "list 1Password vaults: %w" [] e))
        λ vs. elim (titled name vs) [
          | some o ↦ return o.id
          | none ↦ raise (
              errorf "1Password vault %q not found (does the service account have access?)"
                (name ∷ []))
        ]

  unfoldable pub find_item : Bytes → Bytes → Exec client.State (Option Overview)
  unfolding titled
  find_item vid title =
      attempt (client.items vid) (λ e. raise (wrap "list 1Password items: %w" [] e))
        (λ os. return (titled title os))

  unfoldable pub read_field : Bytes → Bytes → Bytes → Exec client.State Bytes
  unfolding reference
  read_field vault item field =
      let ref = reference vault item field in
      attempt (client.resolve ref) (λ e. raise (wrap "resolve %s: %w" (ref ∷ []) e)) return

  -- WriteFields where the item is there.
  unfoldable pub update_item :
      Bytes → Bytes → Overview → List (Bytes × Bytes) → Exec client.State (Unit {0})
  unfolding set_fields
  update_item vid item o new =
      attempt (client.get vid o.id) (λ e. raise (wrap "get 1Password item %q: %w" (item ∷ []) e))
        λ full.
          attempt (client.put (record full { fields = set_fields new full.fields }))
            (λ e. raise (wrap "update 1Password item %q: %w" (item ∷ []) e)) return

  unfoldable pub write_fields : Bytes → Bytes → List (Bytes × Bytes) → Exec client.State (Unit {0})
  unfolding vault_id find_item update_item concealed_field
  write_fields vault item new = do
    vid ← vault_id vault
    found ← find_item vid item
    elim found [
      | none ↦
          attempt (client.create vid item (map concealed_field new))
            (λ e. raise (wrap "create 1Password item %q: %w" (item ∷ []) e)) return
      | some o ↦ update_item vid item o new
    ]

  unfoldable pub remove_item : Bytes → Bytes → Exec client.State (Unit {0})
  unfolding vault_id find_item
  remove_item vault item = do
    vid ← vault_id vault
    found ← find_item vid item
    elim found [
      | none ↦ return tt
      | some o ↦
          attempt (client.delete vid o.id)
            (λ e. raise (wrap "delete 1Password item %q: %w" (item ∷ []) e)) return
    ]
