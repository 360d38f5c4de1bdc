-- ===== src/Creds/OnePassword.antt =====
-- OnePasswordStore of internal/creds/onepassword.go, over a vault.
use medea.Prelude.{Bytes, List, [], ◌∷◌, ◌++◌, bytes}
use medea.Error.{wrap, Result, Exec, raise, return, attempt}
use medea.Creds.Interface.{Operations, talos, kube, bundle, file_of}

-- The interface SecretVault, over the state of the vault.
pub record SecretVault : Type 1 where
  pub State : Type 0
  pub read_field : Bytes → Bytes → Bytes → State → Result Bytes × State
  pub write_fields : Bytes → Bytes → List (Bytes × Bytes) → State → Result (Unit {0}) × State
  pub delete_item : Bytes → Bytes → State → Result (Unit {0}) × State

unfoldable pub item_title : Bytes → Bytes
unfolding bytes
item_title cluster = bytes "medea-" ++ cluster

-- `vault_name` is the store's field; the deadline of a call is the vault's.
module _ ⦃vault : SecretVault⦄ (vault_name : Bytes) where
  unfoldable pub read_item : Bytes → Bytes → Exec vault.State Bytes
  unfolding item_title
  read_item cluster name =
      attempt (vault.read_field vault_name (item_title cluster) name)
        (λ e. raise (wrap "read %s for %q from 1Password: %w" (name ∷ cluster ∷ []) e)) return

  unfoldable pub put_item : Bytes → Bytes → Bytes → Exec vault.State (Unit {0})
  unfolding item_title file_of
  put_item cluster t k =
      attempt
        (vault.write_fields vault_name (item_title cluster)
          ((file_of talos, t) ∷ (file_of kube, k) ∷ []))
        (λ e. raise (wrap "write creds for %q to 1Password: %w" (cluster ∷ []) e)) return

  unfoldable pub put_item_secrets : Bytes → Bytes → Exec vault.State (Unit {0})
  unfolding item_title file_of
  put_item_secrets cluster b =
      attempt (vault.write_fields vault_name (item_title cluster) ((file_of bundle, b) ∷ []))
        (λ e. raise (wrap "write secrets for %q to 1Password: %w" (cluster ∷ []) e)) return

  unfoldable pub delete_item : Bytes → Exec vault.State (Unit {0})
  unfolding item_title
  delete_item cluster =
      attempt (vault.delete_item vault_name (item_title cluster))
        (λ e. raise (wrap "delete creds for %q from 1Password: %w" (cluster ∷ []) e)) return

  abbrev pub vault_operations : Operations
  vault_operations = record {
    State = vault.State;
    talos_config = λ c. read_item c (file_of talos);
    kube_config = λ c. read_item c (file_of kube);
    secrets = λ c. read_item c (file_of bundle);
    put = put_item;
    put_secrets = put_item_secrets;
    delete = delete_item;
  }
