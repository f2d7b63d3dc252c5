-- ===== src/Generator/Factory.antt =====
-- internal/generator/factory.go: the generators by type. A method holds the factory's lock
-- throughout. A constructor function is the generator that it makes, for these have no state of
-- their own; `none` stands for the nil function.
pub mod Laws
use Prim.Native.String.{◌++◌}
use flux_externalsource_cont.Prelude.{
  String, Bool, true, false, Option, none, some, List, [], ◌∷◌, Result, ok, err, ◌==◌,
  if◌then◌else◌,
}
use flux_externalsource_cont.Prelude.Dict.{Dict, lookup, insert}
use flux_externalsource_cont.Generator.{SourceGenerator}

module _ (W : Type 0) where
  pub record Factory : Type 0 where
    pub generators : Dict (SourceGenerator W)

  abbrev pub new_factory : Factory
  new_factory = record { generators = [] }

  abbrev pub created : String → Option (SourceGenerator W) → Result String (SourceGenerator W)
  created generator_type none = err ("unsupported generator type: " ++ generator_type)
  created generator_type (some generator) = ok generator

  unfoldable pub create_generator : Factory → String → Result String (SourceGenerator W)
  unfolding lookup
  create_generator f generator_type = created generator_type (lookup generator_type f.generators)

  unfoldable pub register_generator :
      String → Option (SourceGenerator W) → Factory → Result String (Unit {0}) × Factory
  unfolding insert
  register_generator generator_type none f =
      if generator_type == ""
      then (err "generator type cannot be empty", f)
      else (err "factory function cannot be nil", f)
  register_generator generator_type (some generator) f =
      if generator_type == ""
      then (err "generator type cannot be empty", f)
      else (ok tt, record { generators = insert generator_type generator f.generators })

  abbrev pub keys : Dict (SourceGenerator W) → List String
  keys [] = []
  keys ((generator_type, generator) ∷ m) = generator_type ∷ keys m

  unfoldable pub supported_types : Factory → List String
  supported_types f = keys f.generators
