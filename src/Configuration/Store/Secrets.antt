-- ===== src/Configuration/Store/Secrets.antt =====
-- Secrets, from `put_secret` of common/repo_mcp_common/admin.py to the snapshot of store.py.
use repo_mcp.Prelude.{
  String, ◌≡◌, refl, ◌∙◌, ◌≢◌, inl, inr, Option, some, List, [], ◌∷◌, arith, eq_iff, Bool-cases,
  Option-cases, ◌==◌, ℕ_eq, String_eq, All, lookup, insert, lookup-insert,
}
use repo_mcp.Configuration.{Tables, SecretRow, put_row}
use repo_mcp.Configuration.Rows.{Named}
use repo_mcp.Configuration.Admin.{secret_name, put_secret, bump_generation, record_entry}
use repo_mcp.Configuration.Store.{decrypt_rows}

module _ (encrypt : String → String) (decrypt : String → Option String) where
  decrypt_rows-others :
      (name : String) (rows : List SecretRow) (found : List (String × String))
      → All (λ (r : SecretRow). name ≢ r.name) rows
      → lookup name (decrypt_rows decrypt rows found) ≡ lookup name found
  unfolding decrypt_rows
  decrypt_rows-others name [] found h = refl
  decrypt_rows-others name (r ∷ rows) found h = elim (Option-cases (decrypt r.ciphertext)) [
    | inl bad ↦ rw (decrypt_rows, bad) (decrypt_rows-others name rows found h.1)
    | inr (text, e) ↦
        let later = decrypt_rows-others name rows (insert r.name text found) h.1 in
        let apart = h.0 in
        rw (e, decrypt_rows)
          (later ∙ ground (arith, lookup-insert r.name name text found, eq_iff r.name name, apart))
  ]

  decrypt_rows-put :
      (row : SecretRow) (value : String)
      → decrypt row.ciphertext ≡ some value
      → (rows : List SecretRow) (found : List (String × String)) → Named secret_name rows
      → lookup row.name (decrypt_rows decrypt (put_row secret_name row rows) found) ≡ some value
  unfolding decrypt_rows put_row
  decrypt_rows-put row value opens [] found n =
      rw opens
        (ground (arith, lookup-insert row.name row.name value found, eq_iff row.name row.name))
  decrypt_rows-put row value opens (r ∷ rows) found n = elim (Bool-cases (r.name == row.name)) [
    | inl same ↦
        let e = (eq_iff r.name row.name).0 same in
        rw (same, opens)
          (decrypt_rows-others row.name rows (insert row.name value found) (rw (← e) n.0)
            ∙ ground (arith, lookup-insert row.name row.name value found, eq_iff row.name row.name))
    | inr other ↦ elim (Option-cases (decrypt r.ciphertext)) [
      | inl bad ↦ rw (other, decrypt_rows, bad) (decrypt_rows-put row value opens rows found n.1)
      | inr (text, e) ↦
          rw (other, decrypt_rows, e)
            (decrypt_rows-put row value opens rows (insert r.name text found) n.1)
    ]
  ]

  -- When decryption undoes encryption and no two secrets have one name, a secret that is stored is
  -- the one that the snapshot's secrets have under its name.
  pub decrypt_rows-put_secret :
      (name value actor : String) (description : Option String) (db : Tables)
      → ((text : String) → decrypt (encrypt text) ≡ some text)
      → Named secret_name db.secrets
      → lookup name
          (decrypt_rows decrypt (put_secret encrypt name value actor description db).secrets [])
        ≡ some value
  unfolding put_secret bump_generation record_entry
  decrypt_rows-put_secret name value actor description db opens n =
      decrypt_rows-put _ value (opens value) db.secrets [] n
