-- ===== src/Http/Server/Handlers.antt =====
-- Which function a request gets: `handleFunc` and the maps.
use budd.Common.{
  ◌≡◌, ◌≢◌, refl, ap, sym, ◌∙◌, Option, none, some, Option-cases, Bool-cases, inl, inr,
  if◌then◌else◌, Bytes, equal, equal_iff,
}
use budd.Http.Dict.{lookup, assign, lookup-assign}
use budd.Http.Parameter.{HttpMethod, get, post, put, delete, head}
use budd.Http.Server.{HttpHandleFunc, HandleMap, HttpServer, handle_func, index, select_func}

index-none : (j : Bytes) (d : HandleMap) → lookup j d ≡ none → index j d ≡ (none, assign j none d)
unfolding index
index-none j d e = rw (e, index) refl

index-some :
    (j : Bytes) (f : Option HttpHandleFunc) (d : HandleMap)
    → lookup j d ≡ some f
    → index j d ≡ (f, d)
unfolding index
index-some j f d e = rw (e, index) refl

index-assign :
    (k j : Bytes) (f : Option HttpHandleFunc) (d : HandleMap)
    → (index j (assign k f d)).0 ≡ (if equal k j then f else (index j d).0)
index-assign k j f d = elim (Bool-cases (equal k j)) [
  | inl same ↦
      ap (λ p. p.0) (index-some j f (assign k f d) (lookup-assign k j f d ∙ rw same refl))
      ∙ rw same refl
  | inr other ↦ elim (Option-cases (lookup j d)) [
    | inl e ↦
        ap (λ p. p.0) (index-none j (assign k f d) (lookup-assign k j f d ∙ rw (other, e) refl))
        ∙ rw (other, index-none j d e) refl
    | inr (g, e) ↦
        ap (λ p. p.0) (index-some j g (assign k f d) (lookup-assign k j f d ∙ rw (other, e) refl))
        ∙ rw (other, index-some j g d e) refl
  ]
]

-- The null function that a look-up leaves changes no other look-up.
index-index : (k j : Bytes) (d : HandleMap) → (index j (index k d).1).0 ≡ (index j d).0
index-index k j d = elim (Option-cases (lookup k d)) [
  | inr (f, e) ↦ ap (λ p. (index j p.1).0) (index-some k f d e)
  | inl e ↦
      ap (λ p. (index j p.1).0) (index-none k d e)
      ∙ index-assign k j none d
      ∙ elim (Bool-cases (equal k j)) [
        | inr other ↦ rw other refl
        | inl same ↦ rw same (
            sym (
              ap (λ p. p.0)
                (index-none j d (ap (λ x. lookup x d) (sym ((equal_iff k j).0 same)) ∙ e))))
      ]
]

-- After `handleFunc` a request of that method and path gets the new function, and every other path
-- of the method the function that it had. The method is one of the five.
pub select_func-handle_func :
    (method : HttpMethod) (k j : Bytes) (f : HttpHandleFunc) (s : HttpServer)
    → method ≢ HttpMethod.none
    → (select_func method j (handle_func k f method s)).0
      ≡ (if equal k j then some f else (select_func method j s).0)
unfolding select_func handle_func
select_func-handle_func get k j f s known = index-assign k j (some f) s.handle_get_func_maps
select_func-handle_func post k j f s known = index-assign k j (some f) s.handle_post_func_maps
select_func-handle_func put k j f s known = index-assign k j (some f) s.handle_put_func_maps
select_func-handle_func delete k j f s known = index-assign k j (some f) s.handle_delete_func_maps
select_func-handle_func head k j f s known = index-assign k j (some f) s.handle_head_func_maps
select_func-handle_func HttpMethod.none k j f s known = absurd (known refl)

-- A look-up, also one that leaves a null function in the map, changes no later look-up of its
-- method.
pub select_func-select_func :
    (method : HttpMethod) (k j : Bytes) (s : HttpServer)
    → (select_func method j (select_func method k s).1).0 ≡ (select_func method j s).0
unfolding select_func
select_func-select_func get k j s = index-index k j s.handle_get_func_maps
select_func-select_func post k j s = index-index k j s.handle_post_func_maps
select_func-select_func put k j s = index-index k j s.handle_put_func_maps
select_func-select_func delete k j s = index-index k j s.handle_delete_func_maps
select_func-select_func head k j s = index-index k j s.handle_head_func_maps
select_func-select_func _ k j s = refl
