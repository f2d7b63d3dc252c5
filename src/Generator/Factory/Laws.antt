-- ===== src/Generator/Factory/Laws.antt =====
-- What the factory creates.
use flux_externalsource_cont.Prelude.{
  String, ◌≡◌, refl, ◌&&◌, any, Option, none, some, [], ◌∷◌, is_ok, ◌==◌, eq_iff, if◌then◌else◌,
  arith, Bool-cases, inl, inr,
}
use flux_externalsource_cont.Prelude.Dict.{Dict, lookup, lookup-insert}
use flux_externalsource_cont.Generator.{SourceGenerator}
use flux_externalsource_cont.Generator.Factory.{
  Factory, created, create_generator, register_generator, keys, supported_types,
}

module _ (W : Type 0) where
  -- A registration is refused without a type or a function, and leaves the factory alone then;
  -- otherwise it decides what is created for its own type, and for no other.
  pub create-register :
      (f : Factory W) (t u : String) (g : Option (SourceGenerator W))
      → create_generator W (register_generator W t g f).1 u ≡ (
          if t == u && is_ok (register_generator W t g f).0
          then created W u g
          else create_generator W f u)
  unfolding create_generator register_generator
  create-register f t u none = ground arith
  create-register f t u (some g) = elim (Bool-cases (t == "")) [
    | inl empty ↦ rw empty (ground arith)
    | inr named ↦ rw named (rw lookup-insert (ground arith))
  ]

  -- The supported types are those for which a generator is created.
  pub supported_types_lem :
      (f : Factory W) (t : String)
      → any (λ u. u == t) (supported_types W f) ≡ is_ok (create_generator W f t)
  unfolding supported_types create_generator lookup
  supported_types_lem f t = keys_lem t f.generators
    where
      keys_lem :
          (t : String) (m : Dict (SourceGenerator W))
          → any (λ u. u == t) (keys W m) ≡ is_ok (created W t (lookup t m))
      keys_lem t [] = refl
      keys_lem t ((u, g) ∷ m) = ground (arith, keys_lem t m, eq_iff t u, eq_iff u t)
