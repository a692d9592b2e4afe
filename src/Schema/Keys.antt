-- ===== src/Schema/Keys.antt =====
-- qualifiedTableKey and qualifiedTableKeyWithMain (semantic/schema.go): the keys under which the
-- introspection enters tables, and the names of the ends of a foreign key.
use dux.Base.{List, [], ◌∷◌, ◌++◌, Text, codes, dot, ◌==◌, if◌then◌else◌, ◌||◌}

-- A part is left out when it is empty or the default.
pub part_unless : Text → Text → List Text → List Text
part_unless default name parts = if name == [] || name == default then parts else name ∷ parts

-- strings.Join(append(parts, table), ".")
unfoldable pub join_parts : List Text → Text → Text
join_parts [] table = table
join_parts (part ∷ parts) table = part ++ dot ∷ join_parts parts table

-- qualifiedTableKey
unfoldable pub qualified_table_key : Text → Text → Text → Text
unfolding part_unless join_parts
qualified_table_key catalog schema_name table =
    join_parts (part_unless (codes "memory") catalog (part_unless (codes "main") schema_name []))
      table

-- qualifiedTableKeyWithMain
unfoldable pub qualified_table_key_with_main : Text → Text → Text → Text
unfolding part_unless join_parts
qualified_table_key_with_main catalog schema_name table =
    join_parts (part_unless (codes "memory") catalog (part_unless [] schema_name [])) table
