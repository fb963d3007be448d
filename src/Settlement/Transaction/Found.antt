-- ===== src/Settlement/Transaction/Found.antt =====
-- Where the transfer that `extractSplTransfer` returns stands in the transaction.
use ghost_bazaar.Prelude.{
  ℕ, String, ◌===◌, ◌≡◌, refl, ap, ◌∙◌, true, not, ◌&&◌, ◌||◌, ◌==◌, leb, Bool-cases, List, [], ◌∷◌,
  ◌++◌, length, get_elem?, Option, none, some, Option-cases, ◌⊎◌, inl, inr, ok, >>=-eq-ok, or_throw,
  arith, Result,
}
use ghost_bazaar.Prelude.Json.{Value, str}
use ghost_bazaar.Core.Schemas.{member, says}
use ghost_bazaar.Engine.Session.Inversion.{or_throw-eq-ok}
use ghost_bazaar.Settlement.{SettlementError, unexpected}
use ghost_bazaar.Settlement.Transaction.{
  Chain, Instruction, Transaction, TransferInfo, program_of, is_named, token_program, non_null,
  checked_amount, byte_at, read_u64_le, resolve_account_key, collect_instructions, parsed_transfer,
  first_parsed, transfer_of_bytes, raw_transfer, first_raw, extract_spl_transfer,
}

-- `ix` is one of the instructions.
abbrev pub Among {ℓ} : {A : Type ℓ} → A → List A → Type ℓ
Among {A = A} ix ixs = (front back : List A) × (ixs ≡ front ++ ix ∷ back)

module _ (c : Chain) where
  -- The instruction is a checked transfer of the token program, which names its mint.
  abbrev pub IsParsedTransfer : Instruction → TransferInfo → Type 0
  IsParsedTransfer ix info =
      ((program_of ix === token_program || is_named ix.program "spl-token") ≡ true)
      × (says (member ix.parsed "type") "transferChecked" ≡ true)
      × (info.destination ≡ member (member ix.parsed "info") "destination")
      × (info.mint ≡ non_null (member (member ix.parsed "info") "mint"))
      × (info.amount ≡ checked_amount c (member ix.parsed "info"))

  abbrev pub IsRawTransfer : List String → Instruction → TransferInfo → Type 0
  IsRawTransfer keys ix info =
      (text : String) × (bytes : List ℕ) × (ix.raw_data ≡ some text)
      × (c.base58_decode text ≡ some bytes)
      × (is_named (get_elem? keys ix.program_id_index) token_program ≡ true)
      × ((byte_at bytes 0 == 12) ≡ true)
      × (leb 10 (length bytes) ≡ true)
      × (info.destination ≡ some (str (resolve_account_key keys (get_elem? ix.accounts 2))))
      × (info.mint ≡ some (str (resolve_account_key keys (get_elem? ix.accounts 1))))
      × (info.amount ≡ str (c.show_number (read_u64_le bytes 1)))

  -- A checked transfer somewhere in the transaction.
  abbrev pub Transfers : Transaction → TransferInfo → Type 0
  Transfers tx info =
      ((ix : Instruction) × Among ix (collect_instructions tx) × IsParsedTransfer ix info)
      ⊎ ((keys : List String) × (ix : Instruction) × (tx.account_keys ≡ some keys)
          × Among ix tx.instructions
          × IsRawTransfer keys ix info)

  parsed_transfer-checked :
      (ix : Instruction) (info : TransferInfo) (v : Value)
      → parsed_transfer c ix ≡ some info
      → info.mint ≡ some v
      → IsParsedTransfer ix info
  unfolding parsed_transfer
  parsed_transfer-checked ix info v h named = ground arith

  transfer_of_bytes-checked :
      (keys : List String) (accounts bytes : List ℕ) (info : TransferInfo) (v : Value)
      → transfer_of_bytes c keys accounts bytes ≡ some info
      → info.mint ≡ some v
      → ((byte_at bytes 0 == 12) ≡ true)
        × (leb 10 (length bytes) ≡ true)
        × (info.destination ≡ some (str (resolve_account_key keys (get_elem? accounts 2))))
        × (info.mint ≡ some (str (resolve_account_key keys (get_elem? accounts 1))))
        × (info.amount ≡ str (c.show_number (read_u64_le bytes 1)))
  unfolding transfer_of_bytes
  transfer_of_bytes-checked keys accounts bytes info v h named = ground arith

  raw_transfer-checked :
      (keys : List String) (ix : Instruction) (info : TransferInfo) (v : Value)
      → raw_transfer c keys ix ≡ ok (some info)
      → info.mint ≡ some v
      → IsRawTransfer keys ix info
  unfolding raw_transfer
  raw_transfer-checked keys ix info v h named = elim (Option-cases ix.raw_data) [
    | inl e ↦ absurd (none_found (rw e at h))
    | inr (text, e) ↦
        elim (Bool-cases
          (is_named (get_elem? keys ix.program_id_index) token_program && not (text === ""))) [
            | inl ours ↦
                let (bytes, decoded, found) =
                  >>=-eq-ok (or_throw (c.base58_decode text) unexpected) _ (rw (e, ours) at h) in
                let (twelve, long, destination, mint, amount) =
                  transfer_of_bytes-checked keys ix.accounts bytes info v (cc) named in
                (
                  text,
                  bytes,
                  e,
                  or_throw-eq-ok _ _ decoded,
                  ground arith,
                  twelve,
                  long,
                  destination,
                  mint,
                  amount,
                )
            | inr other ↦ absurd (none_found (rw (e, other) at h))
          ]
  ]
    where
      none_found :
          ◌≡◌ {A = Result SettlementError (Option TransferInfo)} (ok none) (ok (some info)) → ⊥
      none_found p = cc

  first_parsed-Among :
      (ixs : List Instruction) (info : TransferInfo)
      → first_parsed c ixs ≡ some info
      → (ix : Instruction) × Among ix ixs × (parsed_transfer c ix ≡ some info)
  unfolding first_parsed
  first_parsed-Among [] info h = absurd (cc)
  first_parsed-Among (ix ∷ ixs) info h = elim (Option-cases (parsed_transfer c ix)) [
    | inr (i, e) ↦
        let same : some i ≡ some info = rw (e, first_parsed) at h in (ix, ([], ixs, refl), e ∙ same)
    | inl e ↦
        let (jx, (front, back, same), p) =
          first_parsed-Among ixs info (rw (e, first_parsed) at h) in
        (jx, (ix ∷ front, back, ap (◌∷◌ ix) same), p)
  ]

  first_raw-Among :
      (keys : List String) (ixs : List Instruction) (info : TransferInfo)
      → first_raw c keys ixs ≡ ok (some info)
      → (ix : Instruction) × Among ix ixs × (raw_transfer c keys ix ≡ ok (some info))
  unfolding first_raw
  first_raw-Among keys [] info h = absurd (cc)
  first_raw-Among keys (ix ∷ ixs) info h =
      let (found, read, rest) = >>=-eq-ok (raw_transfer c keys ix) _ h in
      elim (Option-cases found) [
        | inr (i, e) ↦
            let same : ok (some i) ≡ ok (some info) = rw e at rest in
            (ix, ([], ixs, refl), read ∙ ap ok e ∙ same)
        | inl e ↦
            let (jx, (front, back, same), p) = first_raw-Among keys ixs info (rw e at rest) in
            (jx, (ix ∷ front, back, ap (◌∷◌ ix) same), p)
      ]

  -- A transfer with a mint is a checked one, and it stands in the transaction.
  pub extract_spl_transfer-Transfers :
      (tx : Transaction) (info : TransferInfo) (v : Value)
      → extract_spl_transfer c tx ≡ ok (some info)
      → info.mint ≡ some v
      → Transfers tx info
  unfolding extract_spl_transfer
  extract_spl_transfer-Transfers tx info v h named =
      elim (Option-cases (first_parsed c (collect_instructions tx))) [
        | inr (i, e) ↦
            let same : ok (some i) ≡ ok (some info) = rw (e, extract_spl_transfer) at h in
            let (ix, among, p) = first_parsed-Among _ i e in
            inl (ix, among, parsed_transfer-checked ix info v (cc) named)
        | inl e ↦ elim (Option-cases tx.account_keys) [
          | inl k ↦ absurd (no_keys (rw (e, k, extract_spl_transfer) at h))
          | inr (keys, k) ↦
              let (ix, among, p) =
                first_raw-Among keys tx.instructions info (rw (e, k, extract_spl_transfer) at h) in
              inr (keys, ix, k, among, raw_transfer-checked keys ix info v p named)
        ]
      ]
    where
      no_keys :
          ◌≡◌ {A = Result SettlementError (Option TransferInfo)} (ok none) (ok (some info)) → ⊥
      no_keys p = cc
