-- ===== src/Server/Layers.antt =====
-- crates/altair-server/src: the order of the layers.
use altair_rs.Prelude.{◌≡◌, refl, Bool, true, false, Option, none, some, List, [], ◌∷◌, ◌++◌}
use altair_rs.Server.Builder.{
  Layer, trace, set_request_id, propagate_request_id, cors_layer, compression_layer,
  body_limit_layer, timeout_layer, Axum, DefaultStack, apply_stack, layer_if, with_cors,
  with_request_id,
}

-- The order that the documentation lists, from the outermost layer to the innermost.
abbrev pub when : {C : Type 0} → Bool → List (Layer C) → List (Layer C)
when true layers = layers
when false layers = []

abbrev pub cors_of : {C : Type 0} → Option C → List (Layer C)
cors_of none = []
cors_of (some c) = cors_layer c ∷ []

abbrev pub documented : {C : Type 0} → DefaultStack C → List (Layer C)
documented self =
    when self.tracing (trace ∷ [])
    ++ (when self.request_id (set_request_id ∷ propagate_request_id ∷ [])
        ++ (cors_of self.cors
            ++ (when self.compression (compression_layer ∷ [])
                ++ (body_limit_layer self.body_limit ∷ timeout_layer self.timeout ∷ []))))

module _ {W R H Y C A N X : Type 0} (axum : Axum W R H Y C A N X) where
  -- The router inside of a list of layers, the first one outermost.
  abbrev pub wrapped : List (Layer C) → R → R
  wrapped [] router = router
  wrapped (l ∷ layers) router = axum.layer l (wrapped layers router)

  wrapped-append :
      (ls ms : List (Layer C)) (router : R)
      → wrapped (ls ++ ms) router ≡ wrapped ls (wrapped ms router)
  wrapped-append [] ms router = refl
  wrapped-append (l ∷ ls) ms router = rw (wrapped-append ls ms router) refl

  wrapped-when :
      (on : Bool) (l : Layer C) (router : R)
      → wrapped (when on (l ∷ [])) router ≡ layer_if axum on l router
  wrapped-when true l router = refl
  wrapped-when false l router = refl

  wrapped-request_id :
      (on : Bool) (router : R)
      → wrapped (when on (set_request_id ∷ propagate_request_id ∷ [])) router
        ≡ with_request_id axum on router
  wrapped-request_id true router = refl
  wrapped-request_id false router = refl

  wrapped-cors_of :
      (cors : Option C) (router : R) → wrapped (cors_of cors) router ≡ with_cors axum cors router
  wrapped-cors_of none router = refl
  wrapped-cors_of (some c) router = refl

  -- The stack is the documented one: from the outside, tracing, the request id set and propagated,
  -- CORS and compression, each where it is enabled, then the limit on bodies and the timeout.
  pub apply_stack_lem :
      (self : DefaultStack C) (router : R)
      → apply_stack axum self router ≡ wrapped (documented self) router
  unfolding apply_stack
  apply_stack_lem self router =
      simp (wrapped-append, wrapped-when, wrapped-request_id, wrapped-cors_of)
