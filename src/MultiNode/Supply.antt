-- ===== src/MultiNode/Supply.antt =====
-- The supply of the genesis: the default one, and the balances on top.
use base_protocol_system.Base.{
  ℕ, ◌+◌, ◌≡◌, refl, some, List, [], ◌∷◌, String, arith, inl, inr, Option-cases, ok,
}
use base_protocol_system.MultiNode.Sdk.{MultiNodeSdk, MultiNodeLaws, Balance, BankGenesis}
use base_protocol_system.MultiNode.Genesis.{add_balances, set_balances}

module _ (k : MultiNodeSdk) (laws : MultiNodeLaws k) where
  open k use {State, Ext, Coins, Rest, GenState}

  pub held : String → List (Balance Coins) → ℕ
  held d [] = 0
  held d (b ∷ bs) = laws.amount_of b.coins d + held d bs

  amount_of-add_balances :
      (d : String) (bs : List (Balance Coins)) (supply total : Coins)
      → add_balances k bs supply ≡ some total
      → laws.amount_of total d ≡ laws.amount_of supply d + held d bs
  unfolding add_balances held
  amount_of-add_balances d [] supply total e = ground arith
  amount_of-add_balances d (b ∷ bs) supply total e = elim (Option-cases (k.add supply b.coins)) [
    | inl p ↦ absurd (ground arith)
    | inr (c, p) ↦
        let more = amount_of-add_balances d bs c total (ground arith) in
        let first = laws.amount_of-add supply b.coins c d p in ground arith
  ]

  -- When the balances are set in the genesis, the bank's genesis that is written has the sanitized
  -- balances and, of each denomination, the supply that it had and what the balances hold; the files
  -- stay as they are.
  pub set_balances-supply :
      (bs : List (Balance Coins)) (gen gen' : GenState) (s t : State)
      → set_balances k bs gen s ≡ (ok gen', t)
      → (t ≡ s)
        × ((old new' : BankGenesis Coins Rest) × (k.bank_genesis gen ≡ some old)
            × (k.set_bank_genesis new' gen ≡ some gen')
            × (new'.balances ≡ k.sanitize_genesis_balances bs)
            × ((d : String)
                → laws.amount_of new'.supply d
                  ≡ laws.amount_of old.supply d + held d new'.balances))
  unfolding set_balances
  set_balances-supply bs gen gen' s t e = elim (Option-cases (k.bank_genesis gen)) [
    | inl p ↦ absurd (ground arith)
    | inr (old, p) ↦
        elim (Option-cases (add_balances k (k.sanitize_genesis_balances bs) old.supply)) [
          | inl q ↦ absurd (ground arith)
          | inr (total, q) ↦
              elim (Option-cases (
                k.set_bank_genesis
                  (record old { balances = k.sanitize_genesis_balances bs; supply = total }) gen)) [
                    | inl r ↦ absurd (ground arith)
                    | inr (g, r) ↦ (
                      ground arith,
                      (
                        old,
                        record old { balances = k.sanitize_genesis_balances bs; supply = total },
                        p,
                        ground arith,
                        refl,
                        λ d.
                            amount_of-add_balances d (k.sanitize_genesis_balances bs) old.supply
                              total q,
                      ),
                    )
                  ]
        ]
  ]
