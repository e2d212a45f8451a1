-- ===== src/Tests/Queries.antt =====
-- Statements, names and addresses.
use faasta.Prelude.{◌+◌, Text, text, false, ◌∷◌, ◌++◌, ◌≡◌, ◌↔◌, refl, arith, ok, All}
use faasta.Routing.Names.{IsNameChar}
use faasta.Sql.{
  validate_single_statement, multi_statement, rewrite_qmark_params, rewrite_from, qmark,
}
use faasta.Sql.Scan.{unquoted}
use faasta.Sql.Statements.{HasSecond, validate_single_statement_iff}
use faasta.Sql.Placeholders.{placeholder, rewrite_qmark_params-qmark}

abbrev two_statements : Text
two_statements = text "select 1; drop table t"

validate_single_statement_iff_example :
    ((validate_single_statement two_statements ≡ multi_statement) ↔ HasSecond two_statements)
    × ((validate_single_statement two_statements ≡ ok tt) ↔ ¬ HasSecond two_statements)
validate_single_statement_iff_example = validate_single_statement_iff two_statements

abbrev head_of_query : Text
head_of_query = text "a = '?' and b = "

rewrite_qmark_params-qmark_example :
    rewrite_qmark_params (head_of_query ++ qmark ∷ text " or c = ?")
    ≡ rewrite_qmark_params head_of_query
      ++ (placeholder (unquoted qmark false head_of_query + 1)
          ++ rewrite_from false (unquoted qmark false head_of_query + 2) (text " or c = ?"))
rewrite_qmark_params-qmark_example =
    rewrite_qmark_params-qmark head_of_query (text " or c = ?") refl

good_name : All IsNameChar (text "app")
good_name = ground arith
