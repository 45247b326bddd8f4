-- ===== src/Trigger/Variable/Nested/Tests.antt =====
-- A name with a dot, of which nothing is there.
use kabanero_events.Prelude.{◌≡◌, refl, some, [], ◌∷◌, lit, split, str_eq, arith}
use kabanero_events.Go.Assoc.{lookup, insert}
use kabanero_events.Go.Value.{Val}
use kabanero_events.Go.Exec.{World, ok, load, store, update, alloc, ◌>>=◌}
use kabanero_events.Trigger.Variable.{
  create_one_variable_helper, enter, create_at, create_one_variable,
}
use kabanero_events.Trigger.Variable.Nested.{follow, Apart, at_new}
use kabanero_events.Trigger.Variable.Nested.Stored.{follow-create_one_variable}
use kabanero_events.Sample.{engine, no_world, text_out}

abbrev before : World
before = record no_world { heap = [] ∷ [] }

abbrev after : World
after = record no_world {
  heap = ((lit "a", Val.object 1) ∷ []) ∷ ((lit "b", Val.string (lit "v")) ∷ []) ∷ [];
}

creates_a_b :
    create_one_variable engine [] (lit "a.b") (text_out (lit "v")) 0 before
    ≡ (ok (lit "a" ∷ []), after)
unfolding create_one_variable create_at enter create_one_variable_helper load store alloc update
    insert lookup split str_eq ◌>>=◌
creates_a_b = refl

apart : Apart before (split b'.' (lit "a.b")) 0
unfolding split lookup
apart = at_new refl

follow-create_one_variable_example :
    follow after (split b'.' (lit "a.b")) 0 ≡ some (Val.string (lit "v"))
follow-create_one_variable_example =
    follow-create_one_variable engine [] (lit "a.b") (text_out (lit "v")) 0 before (lit "a" ∷ [])
      after apart (omega arith) creates_a_b
