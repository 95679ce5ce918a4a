-- ===== src/Root/Modules.antt =====
-- The modules of IBC on the side of the client.
use base_protocol_system.Base.{
  ◌≡◌, ◌≢◌, ◌↔◌, refl, sym, ap, ◌∙◌, ◌⊎◌, inl, inr, All, Apart, some, List, [], ◌∷◌, String, str_eq,
  str_eq→eq, str_eq_same, Bool-cases, Action, ok, pure, panics, for_each, bind-ok, then-ok, arith,
  map,
}
use mathlib.Core.Path.{subst}
use mathlib.Core.List.{Memᴰ}
use mathlib.Core.List.Memᴰ
use base_protocol_system.Export.Sdk.{ExportSdk}
use base_protocol_system.App.{IbcKeepers, ibc_app_modules}
use base_protocol_system.Commands.{CommandSdk}
use base_protocol_system.Root.Sdk.{Table, Injected, RootSdk, RootLaws}
use base_protocol_system.Root.{
  put, client_modules, register_basic, register_ibc, put_all, prepare_root, root_of, new_root_cmd,
  with_ibc, filled, provide_client_context,
}

module _ {V : Type 0} where
  name_differs :
      (n : String) (es : List (String × V)) (e : String × V)
      → All (λ m. n ≢ m) (map (λ (x : String × V). x.0) es)
      → Memᴰ e es
      → n ≢ e.0
  name_differs n [] e d m h = Memᴰ.not-nil m
  name_differs n (x ∷ es) e (d, ds) (Memᴰ.head p) h = d (h ∙ ap (λ (y : String × V). y.0) p)
  name_differs n (x ∷ es) e (d, ds) (Memᴰ.tail m) h = name_differs n es e ds m h

  -- Where the names are all different, a name has one entry.
  one_entry :
      (es : List (String × V)) (e f : String × V)
      → Apart (map (λ (x : String × V). x.0) es)
      → Memᴰ e es
      → Memᴰ f es
      → e.0 ≡ f.0
      → e ≡ f
  one_entry [] e f d m n h = absurd (Memᴰ.not-nil m)
  one_entry (x ∷ es) e f (d, ds) (Memᴰ.head p) (Memᴰ.head q) h = p ∙ sym q
  one_entry (x ∷ es) e f (d, ds) (Memᴰ.head p) (Memᴰ.tail n) h =
      absurd (name_differs x.0 es f d n (sym (ap (λ (y : String × V). y.0) p) ∙ h))
  one_entry (x ∷ es) e f (d, ds) (Memᴰ.tail m) (Memᴰ.head q) h =
      absurd (name_differs x.0 es e d m (sym (h ∙ ap (λ (y : String × V). y.0) q)))
  one_entry (x ∷ es) e f (d, ds) (Memᴰ.tail m) (Memᴰ.tail n) h = one_entry es e f ds m n h

module _ {M V : Type 0} (f : String → M → V) where
  -- What a map that was written in a loop has under a name: what is made of one of the entries of the
  -- name, or what it had, where no entry is of the name.
  put_all_cases :
      (es : List (String × M)) (m : Table V) (n : String)
      → ((x : M) × Memᴰ (n, x) es × (put_all f es m n ≡ some (f n x)))
        ⊎ (((x : M) → ¬ Memᴰ (n, x) es) × (put_all f es m n ≡ m n))
  put_all_cases [] m n = inr (λ x h. Memᴰ.not-nil h, refl)
  put_all_cases ((k, y) ∷ es) m n = elim (put_all_cases es (put k (f k y) m) n) [
    | inl (x, h, e) ↦ inl (x, Memᴰ.tail h, e)
    | inr (none_later, e) ↦ elim (Bool-cases (str_eq k n)) [
      | inl same ↦
          let p = str_eq→eq k n same in
          inl (y, Memᴰ.head (λ i. (sym p i, y)), e ∙ rw (same) (ap (λ j. some (f j y)) p))
      | inr differ ↦ inr (
        λ x h. elim (Memᴰ.cases_cons h) [
          | inl p ↦ let same = str_eq_same k n (sym (ap (λ (z : String × M). z.0) p)) in absurd (cc)
          | inr later ↦ none_later x later
        ],
        e ∙ rw (differ) refl,
      )
    ]
  ]

  -- A loop over the entries of a map, in whatever order, writes each of them.
  put_all_entry :
      (es visited : List (String × M)) (m : Table V) (e : String × M)
      → Apart (map (λ (x : String × M). x.0) es)
      → ((x : String × M) → Memᴰ x visited ↔ Memᴰ x es)
      → Memᴰ e es
      → put_all f visited m e.0 ≡ some (f e.0 e.1)
  put_all_entry es visited m e apart visits h = elim (put_all_cases visited m e.0) [
    | inl (x, there, p) ↦
        p
        ∙ ap (λ (y : String × M). some (f e.0 y.1))
            (one_entry es (e.0, x) e apart ((visits (e.0, x)).0 there) h refl)
    | inr (no_entry, p) ↦ absurd (no_entry e.1 ((visits e).1 h))
  ]

-- The names under which `RegisterIBC` has its modules.
abbrev pub client_names : {k : ExportSdk} → CommandSdk k → List String
client_names c =
    c.app.names.ibc_module ∷ c.app.names.transfer_module ∷ c.app.names.ica_module
    ∷ c.app.names.tm_module ∷ c.app.names.solomachine_module ∷ []

-- The two maps have a module under a name, the same one.
abbrev pub HasModule :
    {k : ExportSdk} {c : CommandSdk k} (r : RootSdk k c)
    → Injected r.Ctx c.app.AppModule r.Basic
    → String
    → Type 0
HasModule {k} {c} r p n =
    (x : c.app.AppModule) × (p.modules n ≡ some x) × (p.manager n ≡ some (r.core_adaptor n x))

module _ (k : ExportSdk) (c : CommandSdk k) (r : RootSdk k c) (l : RootLaws r) (home : String)
    (in_place : r.Cmd) (multi_node : Table r.Basic → r.Cmd) where
  open k use {State, Ext}

  register_ibc_ok :
      (cdc : r.Codec) (s t : State) (es : List (String × c.app.AppModule))
      → register_ibc k c r cdc s ≡ (ok es, t)
      → es ≡ client_modules k c r cdc
  unfolding register_ibc
  register_ibc_ok cdc s t es e =
      let modules = r.range (client_modules k c r cdc) s in
      let (s', looped, left) =
        then-ok (for_each (register_basic k c r cdc) modules) (pure (client_modules k c r cdc)) s t
          es e in
      ground arith

  filled-HasModule :
      Apart (client_names c)
      → (injected : Injected r.Ctx c.app.AppModule r.Basic) (cdc : r.Codec) (s : State) (n : String)
        (x : c.app.AppModule)
      → Memᴰ (n, x) (client_modules k c r cdc)
      → HasModule r (filled k c r injected (r.range (client_modules k c r cdc) s)) n
  filled-HasModule apart injected cdc s n x there =
      let es = client_modules k c r cdc in
      (
        x,
        put_all_entry (λ m y. y) es (r.range es s) injected.modules (n, x) apart (l.range_all es s)
            there,
        put_all_entry r.core_adaptor es (r.range es s) injected.manager (n, x) apart
            (l.range_all es s) there,
      )

  with_ibc-HasModule :
      Apart (client_names c)
      → (injected p : Injected r.Ctx c.app.AppModule r.Basic) (s t : State)
      → with_ibc k c r injected s ≡ (ok p, t)
      → (n : String) (x : r.Codec → c.app.AppModule)
      → ((cdc : r.Codec) → Memᴰ (n, x cdc) (client_modules k c r cdc))
      → HasModule r p n
  unfolding with_ibc
  with_ibc-HasModule apart injected p s t e n x there =
      let cdc = r.codec injected.context in
      let fill : List (String × c.app.AppModule)
          → Action State Ext (Injected r.Ctx c.app.AppModule r.Basic) =
        λ ibc_modules u. (ok (filled k c r injected (r.range ibc_modules u)), u) in
      let (es, u, registered, left) = bind-ok (register_ibc k c r cdc) fill s t p e in
      let es_is = register_ibc_ok cdc s u es registered in
      let p_is : filled k c r injected (r.range (client_modules k c r cdc) u) ≡ p =
        ap (λ y. filled k c r injected (r.range y u)) (sym es_is) ∙ ground arith in
      subst (λ q. HasModule r q n) p_is
        (filled-HasModule apart injected cdc u n (x cdc) (there cdc))

  -- The names of the modules that the application registers are those of the client's.
  by_name :
      (p : Injected r.Ctx c.app.AppModule r.Basic) (ks : IbcKeepers c.app)
      (tm solo : c.app.LightClient)
      → ((n : String) (x : r.Codec → c.app.AppModule)
          → ((cdc : r.Codec) → Memᴰ (n, x cdc) (client_modules k c r cdc))
          → HasModule r p n)
      → All (λ m. HasModule r p (r.module_name m)) (ibc_app_modules c.app ks tm solo)
  by_name p ks tm solo has =
      let named : (m : c.app.AppModule) (n : String)
          → r.module_name m ≡ n
          → HasModule r p n
          → HasModule r p (r.module_name m) =
        λ m n e h. subst (HasModule r p) (sym e) h in
      let names = c.app.names in
      let ibc_found =
        named (c.app.ibc_app_module ks.ibc_keeper) names.ibc_module (l.ibc_name ks.ibc_keeper) (
          has names.ibc_module (λ cdc. c.app.ibc_app_module r.zero_ibc_keeper)
            (λ cdc. Memᴰ.head refl)) in
      let transfer_found =
        named (c.app.transfer_app_module ks.transfer_keeper) names.transfer_module
          (l.transfer_name ks.transfer_keeper)
          (has names.transfer_module (λ cdc. c.app.transfer_app_module r.zero_transfer_keeper)
            (λ cdc. Memᴰ.tail (Memᴰ.head refl))) in
      let ica_found =
        named (c.app.ica_app_module ks.ica_controller_keeper ks.ica_host_keeper) names.ica_module
          (l.ica_name ks.ica_controller_keeper ks.ica_host_keeper)
          (has names.ica_module
            (λ cdc. c.app.ica_app_module r.zero_ica_controller_keeper r.zero_ica_host_keeper)
            (λ cdc. Memᴰ.tail (Memᴰ.tail (Memᴰ.head refl)))) in
      let tm_found = named (c.app.tm_app_module tm) names.tm_module (l.tm_name tm) (
        has names.tm_module (λ cdc. c.app.tm_app_module (r.tm_client_of cdc))
          (λ cdc. Memᴰ.tail (Memᴰ.tail (Memᴰ.tail (Memᴰ.head refl))))) in
      let solomachine_found =
        named (c.app.solomachine_app_module solo) names.solomachine_module (l.solomachine_name solo)
          (has names.solomachine_module
            (λ cdc. c.app.solomachine_app_module (r.solomachine_client_of cdc))
            (λ cdc. Memᴰ.tail (Memᴰ.tail (Memᴰ.tail (Memᴰ.tail (Memᴰ.head refl)))))) in
      (ibc_found, (transfer_found, (ica_found, (tm_found, (solomachine_found, tt)))))

  -- A root command that NewRootCmd returns was made from maps that have, under the name of each of
  -- the modules of IBC that the application registers, a module of the client's, in the one map as
  -- it is and in the other adapted, where the five names differ.
  pub new_root_cmd-HasModule :
      Apart (client_names c)
      → (ks : IbcKeepers c.app) (tm solo : c.app.LightClient) (s t : State) (cmd : r.Cmd)
      → new_root_cmd k c r home in_place multi_node s ≡ (ok cmd, t)
      → (p : Injected r.Ctx c.app.AppModule r.Basic) × (u : State) × (prepare_root k c r home
            in_place multi_node s
          ≡ (ok p, u))
        × (root_of k c r home in_place multi_node p u ≡ (ok cmd, t))
        × All (λ m. HasModule r p (r.module_name m)) (ibc_app_modules c.app ks tm solo)
  unfolding new_root_cmd prepare_root
  new_root_cmd-HasModule apart ks tm solo s t cmd e =
      let (p, u, prepared, rooted) =
        bind-ok (prepare_root k c r home in_place multi_node)
          (root_of k c r home in_place multi_node) s t cmd e in
      let (injected, v, got, filling) =
        bind-ok (panics (r.inject (provide_client_context k c r home))) (with_ibc k c r) s u p
          prepared in
      let has = with_ibc-HasModule apart injected p v u filling in
      (p, u, prepared, rooted, by_name p ks tm solo has)
