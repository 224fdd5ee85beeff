-- ===== src/Api/Entities.antt =====
-- Entities, flows, graphs, schemas and the history of views: endpoints of web/src/lib/api.ts. `encode` stands for
-- `encodeURIComponent`, `form` for `toString` of `URLSearchParams`.
use mc_gantry.Base.{ℕ, List, ◌++◌, Option, none, some, Text, codes, present}
use mc_gantry.Utils.Json.{Json, Fields, str, obj, end, field, set_field}
use mc_gantry.Utils.Path.{encode_path_segment, namespace_suffix}
use mc_gantry.Flow.Health.{namespace_or_default}
use mc_gantry.Export.Bytes.{decimal}
use mc_gantry.Api.Request.{Request, get, post, put, delete}

abbrev pub flow_body : Json → Json → Json
flow_body metadata spec = obj (
    field (codes "kind") (str (codes "Flow")) (
      field (codes "apiVersion") (str (codes "gantry.io/v1"))
        (field (codes "metadata") metadata (field (codes "spec") spec end))))

-- `{ ...metadata, ...(namespace ? { namespace } : {}) }`
unfoldable pub with_namespace : Option Text → Fields → Fields
unfolding set_field
with_namespace namespace metadata = elim (present namespace) [
  | none ↦ metadata
  | some n ↦ set_field (codes "namespace") (str n) metadata
]

module _ (encode : Text → Text) (form : List (Text × Text) → Text) where
  abbrev pub entities_path : Option Text → Text
  entities_path kind = elim (present kind) [
    | none ↦ codes "/entities"
    | some k ↦ codes "/entities/" ++ encode_path_segment encode k
  ]

  unfoldable pub list_entities : Option Text → Request
  list_entities kind = get (entities_path kind)

  unfoldable pub get_entity : Text → Text → Option Text → Request
  unfolding encode_path_segment
  get_entity kind name namespace = get (
      codes "/entities/"
      ++ (encode_path_segment encode kind
          ++ (codes "/" ++ (encode_path_segment encode name ++ namespace_suffix encode namespace))))

  unfoldable pub create_entity : Json → Request
  create_entity entity = post (codes "/entities") (some entity)

  unfoldable pub update_entity : Text → Text → Json → Option Text → Request
  unfolding encode_path_segment
  update_entity kind name entity namespace =
      put
        (codes "/entities/"
          ++ (encode_path_segment encode kind
              ++ (codes "/"
                  ++ (encode_path_segment encode name ++ namespace_suffix encode namespace))))
        (some entity)

  unfoldable pub delete_entity : Text → Text → Option Text → Request
  unfolding encode_path_segment
  delete_entity kind name namespace = delete (
      codes "/entities/"
      ++ (encode_path_segment encode kind
          ++ (codes "/" ++ (encode_path_segment encode name ++ namespace_suffix encode namespace))))

  unfoldable pub search : Text → Request
  search q = get (codes "/search?q=" ++ encode q)

  unfoldable pub list_schemas : Request
  list_schemas = get (codes "/schemas")

  unfoldable pub get_schema : Text → Request
  get_schema kind = get (codes "/schemas/" ++ kind)

  unfoldable pub get_entity_graph : Text → Text → Option Text → Request
  unfolding encode_path_segment
  get_entity_graph kind name namespace = get (
      codes "/graph/"
      ++ (encode_path_segment encode kind
          ++ (codes "/" ++ (encode_path_segment encode name ++ namespace_suffix encode namespace))))

  unfoldable pub list_entity_documentation : Text → Text → Option Text → Request
  unfolding encode_path_segment
  list_entity_documentation kind name namespace = get (
      codes "/entities/"
      ++ (encode_path_segment encode kind
          ++ (codes "/"
              ++ (encode_path_segment encode name
                  ++ (codes "/documentation" ++ namespace_suffix encode namespace)))))

  unfoldable pub get_flow_settings : Request
  get_flow_settings = get (codes "/plugins/flow/settings")

  unfoldable pub list_flows : Request
  list_flows = get (codes "/entities/Flow")

  unfoldable pub create_flow : Json → Json → Request
  create_flow metadata spec = post (codes "/plugins/flow/entities") (some (flow_body metadata spec))

  unfoldable pub update_flow : Text → Fields → Json → Option Text → Request
  unfolding encode_path_segment with_namespace
  update_flow name metadata spec namespace =
      put
        (codes "/plugins/flow/entities/"
          ++ (encode_path_segment encode name ++ namespace_suffix encode namespace))
        (some (flow_body (obj (with_namespace namespace metadata)) spec))

  unfoldable pub delete_flow : Text → Option Text → Request
  unfolding encode_path_segment
  delete_flow name namespace = delete (
      codes "/plugins/flow/entities/"
      ++ (encode_path_segment encode name ++ namespace_suffix encode namespace))

  unfoldable pub get_history : ℕ → Request
  unfolding decimal
  get_history limit = get (codes "/history?limit=" ++ decimal limit)

  unfoldable pub record_view : Text → Text → Option Text → Request
  record_view kind name namespace = post (codes "/history") (
      some (
        obj (
          field (codes "kind") (str kind) (
            field (codes "name") (str name)
              (field (codes "namespace") (str (namespace_or_default namespace)) end)))))
