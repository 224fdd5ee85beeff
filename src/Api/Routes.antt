-- ===== src/Api/Routes.antt =====
-- Where the requests for an entity go: web/src/lib/api.ts.
use mc_gantry.Base.{◌≡◌, refl, ap, ◌∙◌, List, [], ◌∷◌, ◌++◌, Option, Text, codes, All}
use mc_gantry.Utils.Json.{Json, Fields}
use mc_gantry.Utils.Path.{encode_path_segment, namespace_suffix}
use mc_gantry.Utils.Path.Segments.{
  IsInSegment, segments, segments_through, segments-slash, segments-namespace_suffix,
  encoded-IsInSegment,
}
use mc_gantry.Api.Entities.{
  get_entity, update_entity, delete_entity, get_entity_graph, list_entity_documentation,
  update_flow, delete_flow,
}

-- A word between two slashes.
segments-word :
    (word rest : Text)
    → All IsInSegment word
    → segments [] (word ++ (codes "/" ++ rest)) ≡ word ∷ segments [] rest
segments-word word rest h =
    segments_through [] word (codes "/" ++ rest) h ∙ segments-slash word rest

entities-IsInSegment : All IsInSegment (codes "entities")
entities-IsInSegment = (refl, (refl, (refl, (refl, (refl, (refl, (refl, (refl, tt))))))))

graph-IsInSegment : All IsInSegment (codes "graph")
graph-IsInSegment = (refl, (refl, (refl, (refl, (refl, tt)))))

plugins-IsInSegment : All IsInSegment (codes "plugins")
plugins-IsInSegment = (refl, (refl, (refl, (refl, (refl, (refl, (refl, tt)))))))

flow-IsInSegment : All IsInSegment (codes "flow")
flow-IsInSegment = (refl, (refl, (refl, (refl, tt))))

documentation-IsInSegment : All IsInSegment (codes "documentation")
documentation-IsInSegment = (
  refl,
  (
    refl,
    (refl, (refl, (refl, (refl, (refl, (refl, (refl, (refl, (refl, (refl, (refl, tt))))))))))),
  ),
)

abbrev pub seg : (Text → Text) → Text → Text
seg encode value = encode_path_segment encode value

module _ (encode : Text → Text) (form : List (Text × Text) → Text)
    (encode-IsInSegment : (s : Text) → All IsInSegment (encode s)) where
  seg-IsInSegment : (value : Text) → All IsInSegment (seg encode value)
  seg-IsInSegment value = encoded-IsInSegment encode encode-IsInSegment value

  -- The last segment, before the query.
  segments-last :
      (word : Text) (namespace : Option Text)
      → All IsInSegment word
      → segments [] (word ++ namespace_suffix encode namespace) ≡ word ∷ []
  segments-last word namespace h =
      segments_through [] word (namespace_suffix encode namespace) h
      ∙ segments-namespace_suffix encode encode-IsInSegment word namespace

  segments-entity :
      (word kind name rest : Text)
      → All IsInSegment word
      → segments [] (
          codes "/"
          ++ (word ++ (codes "/" ++ (seg encode kind ++ (codes "/" ++ (seg encode name ++ rest))))))
        ≡ [] ∷ word ∷ seg encode kind ∷ segments [] (seg encode name ++ rest)
  segments-entity word kind name rest h =
      segments-slash []
        (word ++ (codes "/" ++ (seg encode kind ++ (codes "/" ++ (seg encode name ++ rest)))))
      ∙ ap (◌∷◌ []) (
          segments-word word (seg encode kind ++ (codes "/" ++ (seg encode name ++ rest))) h
          ∙ ap (◌∷◌ word)
              (segments-word (seg encode kind) (seg encode name ++ rest) (seg-IsInSegment kind)))

  segments-flow :
      (name : Text) (namespace : Option Text)
      → segments [] (
          codes "/plugins/flow/entities/" ++ (seg encode name ++ namespace_suffix encode namespace))
        ≡ [] ∷ codes "plugins" ∷ codes "flow" ∷ codes "entities" ∷ seg encode name ∷ []
  segments-flow name namespace =
      let rest = seg encode name ++ namespace_suffix encode namespace in
      segments-slash [] (codes "plugins/flow/entities/" ++ rest)
      ∙ ap (◌∷◌ []) (
          segments-word (codes "plugins") (codes "flow/entities/" ++ rest) plugins-IsInSegment
          ∙ ap (◌∷◌ (codes "plugins")) (
              segments-word (codes "flow") (codes "entities/" ++ rest) flow-IsInSegment
              ∙ ap (◌∷◌ (codes "flow")) (
                  segments-word (codes "entities") rest entities-IsInSegment
                  ∙ ap (◌∷◌ (codes "entities"))
                      (segments-last (seg encode name) namespace (seg-IsInSegment name)))))

  -- An entity is read, replaced and removed under one address, and the requests for it, its graph and
  -- its documentation, and those that change a flow, have exactly the segments that they should, with
  -- the kind and the name in one each, whatever units these hold and whatever the namespace is: if
  -- `encodeURIComponent` leaves no slash, question mark or number sign.
  pub get_entity-segments :
      (kind name : Text) (namespace : Option Text) (entity : Json) (metadata : Fields)
      → (segments [] (get_entity encode form kind name namespace).path
          ≡ [] ∷ codes "entities" ∷ seg encode kind ∷ seg encode name ∷ [])
        × ((update_entity encode form kind name entity namespace).path
            ≡ (get_entity encode form kind name namespace).path)
        × ((delete_entity encode form kind name namespace).path
            ≡ (get_entity encode form kind name namespace).path)
        × (segments [] (get_entity_graph encode form kind name namespace).path
            ≡ [] ∷ codes "graph" ∷ seg encode kind ∷ seg encode name ∷ [])
        × (segments [] (list_entity_documentation encode form kind name namespace).path
            ≡ []
              ∷ codes "entities"
              ∷ seg encode kind
              ∷ seg encode name
              ∷ codes "documentation"
              ∷ [])
        × (segments [] (update_flow encode form name metadata entity namespace).path
            ≡ [] ∷ codes "plugins" ∷ codes "flow" ∷ codes "entities" ∷ seg encode name ∷ [])
        × (segments [] (delete_flow encode form name namespace).path
            ≡ [] ∷ codes "plugins" ∷ codes "flow" ∷ codes "entities" ∷ seg encode name ∷ [])
  unfolding get_entity update_entity delete_entity get_entity_graph list_entity_documentation
      update_flow delete_flow
  get_entity-segments kind name namespace entity metadata =
      let suffix = namespace_suffix encode namespace in
      let named = segments-last (seg encode name) namespace (seg-IsInSegment name) in
      (
        segments-entity (codes "entities") kind name suffix entities-IsInSegment
            ∙ ap (λ t. [] ∷ codes "entities" ∷ seg encode kind ∷ t) named,
        refl,
        refl,
        segments-entity (codes "graph") kind name suffix graph-IsInSegment
            ∙ ap (λ t. [] ∷ codes "graph" ∷ seg encode kind ∷ t) named,
        segments-entity (codes "entities") kind name (codes "/documentation" ++ suffix)
              entities-IsInSegment
            ∙ ap (λ t. [] ∷ codes "entities" ∷ seg encode kind ∷ t)
                (segments-word (seg encode name) (codes "documentation" ++ suffix)
                    (seg-IsInSegment name)
                  ∙ ap (◌∷◌ (seg encode name))
                      (segments-last (codes "documentation") namespace documentation-IsInSegment)),
        segments-flow name namespace,
        segments-flow name namespace,
      )
