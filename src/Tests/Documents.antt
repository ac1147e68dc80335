-- ===== src/Tests/Documents.antt =====
-- local-modules/@bayou/doc-common at concrete properties, with numbers for values.
use bayou.Prelude.{ℕ, ◌≡◌, refl, true, false, Option, [], ◌∷◌, ok, String, ◌↔◌, string_eq, nat_eq}
use bayou.Syntax.{is_identifier, all_word}
use bayou.JsMap
use bayou.JsMap.Rewrite.{write_all}
use bayou.Ot.Delta.{Delta}
use bayou.Ot.Change.{Change}
use bayou.Ot.Snapshot
use bayou.Ot.Snapshot.{Snapshot}
use bayou.Doc.Property.Op.{PropertyOp, delete, set}
use bayou.Doc.Property.Delta.{impl_compose, impl_is_document, is_document_from, property_class}
use bayou.Doc.Property.Delta.Laws.{apply, meaning, apply-compose, meaning-compose}
use bayou.Doc.Property.Snapshot.{diff, equals}
use bayou.Doc.Property.Snapshot.Laws.{map_of}
use bayou.Doc.Property.Snapshot.Diff.{HasNames, equals-meaning, compose-diff}

abbrev put : String → ℕ → PropertyOp ℕ
put name value = set (record { name = name; value = value })

abbrev older_ops : Delta (PropertyOp ℕ)
older_ops = put "a" 1 ∷ put "b" 2 ∷ []

abbrev newer_ops : Delta (PropertyOp ℕ)
newer_ops = put "c" 3 ∷ put "a" 4 ∷ []

abbrev edit : Delta (PropertyOp ℕ)
edit = delete "b" ∷ put "c" 5 ∷ []

abbrev older : Snapshot (PropertyOp ℕ)
older = record { rev_num = 3; contents = older_ops }

abbrev newer : Snapshot (PropertyOp ℕ)
newer = record { rev_num = 5; contents = newer_ops }

older_document : impl_is_document older_ops ≡ true
unfolding impl_is_document is_document_from JsMap.has JsMap.set
older_document = refl

newer_document : impl_is_document newer_ops ≡ true
unfolding impl_is_document is_document_from JsMap.has JsMap.set
newer_document = refl

older_names : HasNames (map_of older)
unfolding write_all JsMap.set is_identifier all_word
older_names = (refl, (refl, tt))

b_is_identifier : is_identifier "b" ≡ true
unfolding is_identifier all_word
b_is_identifier = refl

meaning-compose_example :
    (r : Delta (PropertyOp ℕ)) × (impl_compose older_ops edit true ≡ ok r)
    × (impl_is_document r ≡ true)
    × ((k : String) → meaning r k ≡ apply edit (meaning older_ops) k)
meaning-compose_example = meaning-compose older_ops edit older_document

apply-compose_example :
    (r : Delta (PropertyOp ℕ)) × (impl_compose edit newer_ops false ≡ ok r)
    × ((s : String → Option ℕ) (k : String) → apply r s k ≡ apply newer_ops (apply edit s) k)
apply-compose_example = apply-compose edit newer_ops

compose-diff_example :
    (ch : Change (PropertyOp ℕ)) × (r : Snapshot (PropertyOp ℕ)) × (diff older newer ≡ ok ch)
    × (Snapshot.compose property_class older ch ≡ ok r)
    × (equals r newer ≡ ok true)
compose-diff_example = compose-diff older newer older_document newer_document older_names

equals-meaning_example :
    (equals older newer ≡ ok true)
    ↔ ((older.rev_num ≡ newer.rev_num) × ((k : String) → meaning older_ops k ≡ meaning newer_ops k))
equals-meaning_example = equals-meaning older newer older_document newer_document
