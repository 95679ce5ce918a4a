-- ===== src/MultiNode/Peers.antt =====
-- What the loop over the nodes hands on: an entry for each node, and the list of the peers.
use base_protocol_system.Base.{
  map, map-append, pos, ◌-ℤ◌, ◌*◌, ℕ, zero, suc, ◌+◌, ◌≡◌, ◌≢◌, refl, sym, ap, ◌∙◌, List, [], ◌∷◌,
  ◌++◌, length, length-append, String, ◌⧺◌, itoa, arith, Action, ok, ◌>>=◌, ◌>>◌, pure,
}
use base_protocol_system.Base.Yields.{Yields, Yields-bind, Yields-then, Yields-ok}
use text.Mathlib.TextLemmas.{append-ne-nil_of_right_ne-nil}
use base_protocol_system.MultiNode.Sdk.{MultiNodeSdk, NodeConfig, Balance}
use base_protocol_system.MultiNode.Args.{InitArgs}
use base_protocol_system.MultiNode.Files.{count_up}
use base_protocol_system.MultiNode.Nodes.{
  Nodes, make_node, prepare_node, finish_node, init_node, no_nodes, config_of, add_peer, p2p_port,
  add_node, add_genesis, make_key, genesis_coins, make_gentx, write_node,
}
use base_protocol_system.MultiNode.Testnet.{init_nodes}
use base_protocol_system.MultiNode.Commas.{
  join_comma, indexed, indexed-append, AllText, join_comma-append, at-ne-nil,
}

-- What each round keeps, the loop keeps.
count_up_keeps :
    {S E B : Type 0} (P : ℕ → B → Type 0) (body : ℕ → B → Action S E B)
    → ((i : ℕ) (b : B) (s : S) → P i b → Yields (P (suc i)) ((body i b s).0))
    → (n i j : ℕ) (b : B) (s : S) → i + n ≡ j
    → P i b
    → Yields (P j) ((count_up body i n b s).0)
unfolding count_up
count_up_keeps P body keep zero i j b s e h = let same : i ≡ j = omega (arith, e) in rw same at h
count_up_keeps P body keep (suc n) i j b s e h =
    Yields-then (P (suc i)) (P j) (body i b) (count_up body (suc i) n) s (keep i b s h)
      λ b' t h'. count_up_keeps P body keep n (suc i) j b' t (omega (arith, e)) h'

module _ (k : MultiNodeSdk) (args : InitArgs k.Coin) where
  open k use {State, Ext, Rest, PubKey, Keyring, Address, Account, Coins, Bytes}

  -- The peer of a node: its id at the address, with the port 26656 and three less for each node before.
  abbrev pub memo : ℕ → String → String
  memo i node_id = node_id ⧺ "@" ⧺ args.starting_ip_address ⧺ ":" ⧺ itoa (pos 26656 -ℤ pos (3 * i))

  -- The file of a node's transaction, which its directory and its id name.
  abbrev pub gentx_path : ℕ → String → String
  gentx_path i node_id = k.join (
      k.join (args.output_dir ∷ (args.node_dir_prefix ⧺ itoa (pos i)) ∷ "config" ∷ "gentx" ∷ [])
      ∷ ("gentx-" ⧺ node_id ⧺ ".json")
      ∷ [])

  -- The accounts and the balances of the genesis are of the same addresses, one for each node.
  pub record HasAddresses (n : ℕ) (accounts : List Account) (balances : List (Balance Coins))
      : Type 0 where
    pub addresses : List Address
    pub count : length addresses ≡ n
    pub accounts_lem : accounts ≡ map k.new_base_account addresses
    pub balances_lem :
        map (λ (b : Balance Coins). b.address) balances ≡ map k.account_text addresses

  -- What the first `n` rounds have filled in.
  pub record IsFilled (n : ℕ) (nodes : Nodes k) : Type 0 where
    pub ids : length nodes.node_ids ≡ n
    pub keys : length nodes.val_pub_keys ≡ n
    pub files : length nodes.gen_files ≡ n
    pub genesis : HasAddresses n nodes.gen_accounts nodes.gen_balances
    pub peers : nodes.persistent_peers ≡ join_comma (indexed memo 0 nodes.node_ids)
    pub gentxs : nodes.gentxs_files ≡ indexed gentx_path 0 nodes.node_ids

  memo-text : (i : ℕ) (node_id : String) → memo i node_id ≢ String.[]
  memo-text i node_id =
      append-ne-nil_of_right_ne-nil node_id
        (at-ne-nil (args.starting_ip_address ⧺ ":" ⧺ itoa (p2p_port i)))

  memos-AllText : (i : ℕ) (ids : List String) → AllText (indexed memo i ids)
  unfolding AllText indexed
  memos-AllText i [] = tt
  memos-AllText i (x ∷ xs) = (memo-text i x, memos-AllText (suc i) xs)

  -- The nodes between the two halves of a round.
  IsPrepared : ℕ → Nodes k × (String × PubKey) → Type 0
  IsPrepared n (nodes, made) =
      (length nodes.node_ids ≡ suc n)
      × (length nodes.val_pub_keys ≡ suc n)
      × (length nodes.gen_files ≡ suc n)
      × HasAddresses n nodes.gen_accounts nodes.gen_balances
      × (nodes.persistent_peers ≡ join_comma (indexed memo 0 nodes.node_ids))
      × (nodes.gentxs_files ++ (gentx_path n made.0 ∷ []) ≡ indexed gentx_path 0 nodes.node_ids)

  prepare_node-IsPrepared :
      (i : ℕ) (nodes : Nodes k) (s : State)
      → IsFilled i nodes
      → Yields (IsPrepared i) ((prepare_node k args i nodes s).0)
  unfolding prepare_node IsPrepared
  prepare_node-IsPrepared i nodes s h =
      Yields-bind (IsPrepared i) (make_node k args i (config_of k args i nodes.node_config))
        (λ made. pure (add_node k args i nodes (config_of k args i nodes.node_config) made, made)) s
        λ made t.
          let id = made.0 in
          let more = indexed-append memo 0 i nodes.node_ids id (omega (arith, h.ids)) in
          let more' = indexed-append gentx_path 0 i nodes.node_ids id (omega (arith, h.ids)) in
          let joined =
            join_comma-append (indexed memo 0 nodes.node_ids) (memo i id)
              (memos-AllText 0 nodes.node_ids) in
          (
            omega (arith, length-append nodes.node_ids (id ∷ []), h.ids),
            omega (arith, length-append nodes.val_pub_keys (made.1 ∷ []), h.keys),
            omega (
              arith,
              length-append nodes.gen_files
                  (k.genesis_file (config_of k args i nodes.node_config) ∷ []),
              h.files,
            ),
            h.genesis,
            ap (λ peers. add_peer peers (memo i id)) h.peers
                ∙ sym joined
                ∙ ap join_comma (sym more),
            ap (λ files. files ++ (gentx_path i id ∷ [])) h.gentxs ∙ sym more',
          )

  one_more :
      {A B : Type 0} (f : A → B) (xs : List A) (ys : List B) (x : A) (y : B)
      → ys ≡ map f xs
      → y ≡ f x
      → ys ++ (y ∷ []) ≡ map f (xs ++ (x ∷ []))
  one_more f xs ys x y e e' = sym (map-append f xs (x ∷ []) ∙ rw (e, e') refl)

  -- An account and a balance of an address, behind those before.
  more-HasAddresses :
      (n : ℕ) (accounts : List Account) (balances : List (Balance Coins)) (address : Address)
      (coins : Coins)
      → HasAddresses n accounts balances
      → HasAddresses
          (suc n)
          (accounts ++ (k.new_base_account address ∷ []))
          (balances ++ (record { address = k.account_text address; coins = coins } ∷ []))
  more-HasAddresses n accounts balances address coins h = record {
    addresses = h.addresses ++ (address ∷ []);
    count = omega (arith, length-append h.addresses (address ∷ []), h.count);
    accounts_lem = one_more k.new_base_account h.addresses accounts address _ h.accounts_lem refl;
    balances_lem =
        map-append (λ (b : Balance Coins). b.address) balances
          (record { address = k.account_text address; coins = coins } ∷ [])
        ∙ one_more k.account_text h.addresses (map (λ (b : Balance Coins). b.address) balances)
            address _ h.balances_lem refl;
  }

  finish_node-IsFilled :
      (i : ℕ) (prepared : Nodes k × (String × PubKey)) (s : State)
      → IsPrepared i prepared
      → Yields (IsFilled (suc i)) ((finish_node k args i prepared s).0)
  unfolding finish_node IsPrepared
  finish_node-IsFilled i (nodes, made) s (ids, keys, files, genesis, peers, gentxs) =
      let P = IsFilled (suc i) in
      let end : Keyring × Address → Coins → Bytes → Action State Ext (Nodes k) = λ key coins tx_bz.
        write_node k args i made.0 nodes tx_bz
        >> pure (add_genesis k args i nodes made.0 key.1 coins) in
      let with_coins : Keyring × Address → Coins → Action State Ext (Nodes k) =
        λ key coins. make_gentx k args i made key >>= end key coins in
      Yields-bind P (make_key k args i) (λ key. genesis_coins k >>= with_coins key) s
        λ key t1. Yields-bind P (genesis_coins k) (with_coins key) t1 λ coins t2.
          Yields-bind P (make_gentx k args i made key) (end key coins) t2 λ tx_bz t3.
            Yields-bind P (write_node k args i made.0 nodes tx_bz)
              (λ _. pure (add_genesis k args i nodes made.0 key.1 coins)) t3
              λ _ t4. record {
                ids = ids;
                keys = keys;
                files = files;
                genesis =
                    more-HasAddresses i nodes.gen_accounts nodes.gen_balances (key.1) coins genesis;
                peers = peers;
                gentxs = gentxs;
              }

  init_node-IsFilled :
      (i : ℕ) (nodes : Nodes k) (s : State)
      → IsFilled i nodes
      → Yields (IsFilled (suc i)) ((init_node k args i nodes s).0)
  unfolding init_node
  init_node-IsFilled i nodes s h =
      Yields-then (IsPrepared i) (IsFilled (suc i)) (prepare_node k args i nodes)
        (finish_node k args i) s (prepare_node-IsPrepared i nodes s h)
        λ prepared t placed. finish_node-IsFilled i prepared t placed

  -- A loop over the nodes that ends well has an id, a key and a genesis file for each node, and an
  -- address for each, of which the accounts and the balances are, in order; the persistent peers are
  -- the nodes' ids at the starting address with the ports 26656, 26653 and so on, in order and with
  -- commas between them, and the file of each transaction is in its node's directory, named by the id.
  pub init_nodes-IsFilled :
      (n : ℕ) (config : NodeConfig Rest) (s t : State) (nodes : Nodes k)
      → init_nodes k args n config s ≡ (ok nodes, t)
      → IsFilled n nodes
  unfolding init_nodes no_nodes join_comma indexed
  init_nodes-IsFilled n config s t nodes e =
      Yields-ok (IsFilled n) (init_nodes k args n config) s t nodes
        (count_up_keeps IsFilled (init_node k args) init_node-IsFilled n 0 n
          (no_nodes k args config) s (omega arith)
          (record {
            ids = refl;
            keys = refl;
            files = refl;
            genesis = record {
              addresses = [];
              count = refl;
              accounts_lem = refl;
              balances_lem = refl;
            };
            peers = refl;
            gentxs = refl;
          }))
        e
