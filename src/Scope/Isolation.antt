-- ===== src/Scope/Isolation.antt =====
-- Keys of different scopes, kinds or identifiers never collide, and no scope's prefix begins a key
-- of another scope.
use workflow_helper_public.Base.{
  arith, subst, Result, err, ℕ, zero, suc, ◌<◌, ◌≡◌, refl, ap, ◌∙◌, true, [], ◌∷◌, ◌++◌, length,
  take, drop, append_assoc, append-nil, drop-append_length, ok, sym,
}
use workflow_helper_public.Text.{Text, starts_with}
use workflow_helper_public.Text.Equality.{text_eq→eq, text_eq_iff}
use workflow_helper_public.Scope.{
  unqualify, unqualify_rest, unqualify_last, unqualify_in, TenantWorkspaceScope, scope_prefix,
  segment, qualify, key_version, read_segment, max_int_digits,
}
use workflow_helper_public.Scope.Segment.{read_segment-segment}
use workflow_helper_public.Scope.RoundTrip.{
  IsScope, prefix_text, qualify-ok, id_bounds, length-is_kind, length-is_scope_id, scope_prefix-ok,
  unqualify-qualify,
}

abbrev IsSegment : Text → Type 0
IsSegment s = (0 < length s) × (length s < max_int_digits)

-- Texts that begin with a segment agree on the segment and on what follows it.
pub segment_unambiguous :
    (a b r r' : Text)
    → IsSegment a
    → IsSegment b
    → segment a ++ r ≡ segment b ++ r'
    → (a ≡ b) × (r ≡ r')
segment_unambiguous a b r r' ha hb e = (same, rest same)
  where
    same : a ≡ b
    same = cc (read_segment-segment [] a r ha.0 ha.1, read_segment-segment [] b r' hb.0 hb.1)

    rest : a ≡ b → r ≡ r'
    rest p =
        sym (drop-append_length (segment a) r)
        ∙ ap (drop (length (segment a))) e
        ∙ rw p (drop-append_length (segment b) r')

strip_version : (r r' : Text) → key_version ++ r ≡ key_version ++ r' → r ≡ r'
strip_version r r' e = ap (drop 9) e

-- A scope is read off what begins with its prefix.
pub prefix_unambiguous :
    (s t : TenantWorkspaceScope) (r r' : Text)
    → IsScope s
    → IsScope t
    → prefix_text s ++ r ≡ prefix_text t ++ r'
    → (s.tenant_id ≡ t.tenant_id) × (s.workspace_id ≡ t.workspace_id) × (r ≡ r')
prefix_unambiguous s t r r' hs ht e =
    let regroup : (a b : Text) (x : Text)
        → key_version ++ a ++ b ++ x ≡ key_version ++ (a ++ (b ++ x)) =
      λ a b x. simp append_assoc in
    let inner = strip_version _ _ (
      sym (regroup (segment s.tenant_id) (segment s.workspace_id) r)
      ∙ e
      ∙ regroup (segment t.tenant_id) (segment t.workspace_id) r') in
    let outer =
      segment_unambiguous s.tenant_id t.tenant_id (segment s.workspace_id ++ r)
        (segment t.workspace_id ++ r') (length-is_scope_id s.tenant_id hs.tenant)
        (length-is_scope_id t.tenant_id ht.tenant) inner in
    let last =
      segment_unambiguous s.workspace_id t.workspace_id r r'
        (length-is_scope_id s.workspace_id hs.workspace)
        (length-is_scope_id t.workspace_id ht.workspace) outer.1 in
    (outer.0, last.0, last.1)

-- Two qualified keys are equal only where tenant, workspace, kind and identifier all are.
pub qualify_injective :
    (s t : TenantWorkspaceScope) (kind kind' id id' : Text) {key : Text}
    → qualify s kind id ≡ ok key
    → qualify t kind' id' ≡ ok key
    → (s.tenant_id ≡ t.tenant_id) × (s.workspace_id ≡ t.workspace_id) × (kind ≡ kind') × (id ≡ id')
qualify_injective s t kind kind' id id' h h' =
    let p = qualify-ok s kind id h in
    let q = qualify-ok t kind' id' h' in
    let scopes =
      prefix_unambiguous s t (segment kind ++ segment id) (segment kind' ++ segment id') p.scoped
        q.scoped
        (sym (append_assoc (prefix_text s) (segment kind) (segment id))
          ∙ sym p.written
          ∙ q.written
          ∙ append_assoc (prefix_text t) (segment kind') (segment id')) in
    let kinds =
      segment_unambiguous kind kind' (segment id) (segment id') (length-is_kind kind p.kinded)
        (length-is_kind kind' q.kinded) scopes.2 in
    let ids =
      segment_unambiguous id id' [] [] (id_bounds p) (id_bounds q)
        (append-nil (segment id) ∙ kinds.1 ∙ sym (append-nil (segment id'))) in
    (scopes.0, scopes.1, kinds.0, ids.0)

starts_with-split : (t p : Text) → starts_with t p ≡ true → t ≡ p ++ drop (length p) t
unfolding starts_with
starts_with-split t p h =
    take_split (length p) t ∙ ap (λ x. x ++ drop (length p) t) (text_eq→eq _ p h)
  where
    take_split : (n : ℕ) (t : Text) → t ≡ take n t ++ drop n t
    take_split zero t = refl
    take_split (suc n) [] = refl
    take_split (suc n) (c ∷ t) = ap (λ x. c ∷ x) (take_split n t)

-- A key that `qualify` wrote for one scope begins with another scope's prefix only if the scopes
-- are the same: selecting by prefix never shows another tenant's or workspace's rows.
starts_with-qualify :
    (s t : TenantWorkspaceScope) (kind id : Text) {key prefix : Text}
    → qualify s kind id ≡ ok key
    → scope_prefix t ≡ ok prefix
    → starts_with key prefix ≡ true
    → (s.tenant_id ≡ t.tenant_id) × (s.workspace_id ≡ t.workspace_id)
starts_with-qualify s t kind id {key} {prefix} h p within =
    let q = qualify-ok s kind id h in
    let (valid, written) = scope_prefix-ok t p in
    let same =
      prefix_unambiguous s t (segment kind ++ segment id) (drop (length prefix) key) q.scoped valid
        (sym (append_assoc (prefix_text s) (segment kind) (segment id))
          ∙ sym q.written
          ∙ starts_with-split key prefix within
          ∙ ap (λ x. x ++ drop (length prefix) key) written) in
    (same.0, same.1)

-- What a key that was read back looks like to the reader.
record Reads (t : TenantWorkspaceScope) (kind key id : Text) : Type 0 where
  prefix : Text
  offset : ℕ
  scoped : scope_prefix t ≡ ok prefix
  within : starts_with key prefix ≡ true
  kind_read : read_segment key (length prefix) ≡ ok (kind, offset)
  id_read : read_segment key offset ≡ ok (id, length key)

read_steps :
    (internal_key prefix kind id : Text)
    → (r : Result (Text × ℕ)) → read_segment internal_key (length prefix) ≡ r
    → unqualify_rest internal_key kind r ≡ ok id
    → (offset : ℕ) × (read_segment internal_key (length prefix) ≡ ok (kind, offset))
      × (read_segment internal_key offset ≡ ok (id, length internal_key))
unfolding unqualify_rest
read_steps key prefix kind id (err e) first h = cc
read_steps key prefix kind id (ok (parsed, offset)) first h =
    second (read_segment key offset) refl h
  where
    second :
        (r : Result (Text × ℕ))
        → read_segment key offset ≡ r
        → unqualify_last key kind parsed r ≡ ok id
        → (offset : ℕ) × (read_segment key (length prefix) ≡ ok (kind, offset))
          × (read_segment key offset ≡ ok (id, length key))
    second (err e) q h = cc
    second (ok (found, end)) q h =
        (offset, ground (arith, text_eq_iff parsed kind), ground (arith, text_eq_iff parsed kind))

unqualify-Reads :
    (t : TenantWorkspaceScope) (kind key : Text) {id : Text}
    → unqualify t kind key ≡ ok id
    → Reads t kind key id
unfolding unqualify
unqualify-Reads t kind key {id} u = from (scope_prefix t) refl u
  where
    from :
        (r : Result Text)
        → scope_prefix t ≡ r
        → unqualify_in key kind r ≡ ok id
        → Reads t kind key id
    from (err e) p h = cc
    from (ok prefix) p h =
        let inside : starts_with key prefix ≡ true = ground arith in
        let (offset, first, second) =
          read_steps key prefix kind id (read_segment key (length prefix)) refl (ground arith) in
        record {
          prefix = prefix;
          offset = offset;
          scoped = p;
          within = inside;
          kind_read = first;
          id_read = second;
        }

Reads-unique :
    {t : TenantWorkspaceScope} {kind kind' key id id' : Text}
    → Reads t kind key id
    → Reads t kind' key id'
    → (kind ≡ kind') × (id ≡ id')
Reads-unique r r' = ground arith

-- Whoever reads a key back under any scope and kind names the scope and the kind that it was
-- written for, and gets the identifier that it was written for.
pub unqualify_authentic :
    (s t : TenantWorkspaceScope) (kind kind' id id' : Text) {key : Text}
    → qualify s kind id ≡ ok key
    → unqualify t kind' key ≡ ok id'
    → (s.tenant_id ≡ t.tenant_id) × (s.workspace_id ≡ t.workspace_id) × (kind ≡ kind') × (id ≡ id')
unqualify_authentic s t kind kind' id id' {key} h u =
    let reads = unqualify-Reads t kind' key u in
    let scopes = starts_with-qualify s t kind id h reads.scoped reads.within in
    let same : t ≡ s = ground (arith, scopes) in
    let own = unqualify-Reads s kind key (unqualify-qualify s kind id h) in
    let other = subst (λ scope. Reads scope kind' key id') same reads in
    (scopes.0, scopes.1, (Reads-unique own other).0, (Reads-unique own other).1)
