-- ===== src/Evidence/Schema/Tests.antt =====
-- A schema of a statement with definitions.
use agent_governance_evidenc.Base.{◌≡◌, refl, bytes, equal, some}
use agent_governance_evidenc.Evidence.Json.{object, string, Members, end, member, find}
use agent_governance_evidenc.Evidence.Schema.{predicate_schema, Describes, predicate_schema-find}

abbrev definitions : Members
definitions = member (bytes "artifact") (string (bytes "object")) end

abbrev described : Members
described = member (bytes "type") (string (bytes "object")) end

abbrev properties : Members
properties = member (bytes "predicate") (object described) end

abbrev whole : Members
whole =
    member (bytes "definitions") (object definitions)
      (member (bytes "properties") (object properties) end)

describes : Describes whole properties described
unfolding find equal bytes
describes = record { properties_are = refl; predicate_is = refl }

predicate_schema_example :
    find (bytes "definitions") (predicate_schema whole) ≡ some (object definitions)
unfolding equal bytes find
predicate_schema_example =
    predicate_schema-find whole properties described (bytes "definitions") describes
