-- ===== src/Tests/Literals.antt =====
-- Runs over the SQL text of literals (emitter/emitter.go).
use dux.Base.{some, ◌∷◌, ◌++◌, [], Text, codes, ◌≡◌, refl}
use dux.Ast.{string}
use dux.Names.{undouble, double}
use dux.Filters.Literals.{str}
use dux.Emitter.Literals.{emit_literal, sql_value, sql_value-emit_literal}

abbrev quoted_name : Text
quoted_name = codes "O'Neil \"\"x\"\""

emit_runs : emit_literal (str (codes "O'Neil")) ≡ some (codes "'O''Neil'")
unfolding emit_literal str
emit_runs = refl

-- A value with two adjacent double quotes loses one of them.
pairs_run : undouble 34 quoted_name ≡ codes "O'Neil \"x\""
unfolding undouble
pairs_run = refl

sql_value-emit_literal_example :
    ((t : Text) × (emit_literal (string (34 ∷ (double 34 quoted_name ++ 34 ∷ []))) ≡ some t)
      × (sql_value t ≡ some quoted_name))
    × ((t : Text) × (emit_literal (str quoted_name) ≡ some t)
        × (sql_value t ≡ some (undouble 34 quoted_name)))
sql_value-emit_literal_example = sql_value-emit_literal quoted_name
