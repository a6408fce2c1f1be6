-- ===== src/Admission/Facts/Supported.antt =====
-- What the evidence of a candidate has to be, for `_evaluate_candidate` to take its text.
use axignal.Common.{
  String, true, false, not, Option, none, some, List, [], ◌∷◌, ◌≡◌, refl, sym, ap, subst, Matched,
  none_left, pair, mem, ◌==◌, eq_iff, arith, ok, >>=-eq-ok, ok_injective, reject_if,
  reject_if-eq-ok,
}
use axignal.Common.Dict.{get}
use axignal.Outbox.Payload.{lookup}
use axignal.Admission.Types.{
  PackagedEvidence, Package, Source, FragmentRow, EvidenceRow, CandidateRow,
}
use axignal.Admission.Facts.{
  find_packaged, required, payload_differs, bound_evidence, supporting_text, supporting_texts,
}
use axignal.Admission.Facts.OneMatch.{required-eq-ok}
use axignal.Admission.Facts.Stated.{Holds, is_text_sound, is_text_complete}

bound_evidence-eq-ok :
    (c : CandidateRow) (o : Option EvidenceRow) (row : EvidenceRow)
    → bound_evidence c o ≡ ok row
    → (o ≡ some row) × (mem row.evidence_id c.evidence_ids ≡ true)
unfolding bound_evidence
bound_evidence-eq-ok c none row h = cc h
bound_evidence-eq-ok c (some r) row h =
    let (u, own, last) = >>=-eq-ok (reject_if (not (mem r.evidence_id c.evidence_ids)) _) _ h in
    let is_own : mem r.evidence_id c.evidence_ids ≡ true =
      ground (arith, reject_if-eq-ok (not (mem r.evidence_id c.evidence_ids)) _ own) in
    let same = ok_injective last in
    (ap some same, subst (λ (x : EvidenceRow). mem x.evidence_id c.evidence_ids ≡ true) same is_own)

same_text : (s t : String) → not (s == t) ≡ false → s ≡ t
same_text s t h = (eq_iff s t).0 (ground (arith, h))

module _ (p : Package) (c : CandidateRow) (source : Source)
    (fragments : List (String × FragmentRow)) (by_key : List (String × EvidenceRow)) where
  -- The evidence under the key is one of the candidate's, it is the package's, which quotes a stored
  -- fragment, and its rights are those of the source today. What it supports is the fragment's
  -- text, under the evidence's identifier.
  pub record Supports (key : String) (found : String × String) : Type 0 where
    pub row : EvidenceRow
    pub e : PackagedEvidence
    pub f : FragmentRow
    pub stored : get key by_key ≡ some row
    pub own : mem row.evidence_id c.evidence_ids ≡ true
    pub in_package : find_packaged key p.evidence ≡ some e
    pub in_fragment : get e.fragment_id fragments ≡ some f
    pub quoted : e.quote_hash ≡ f.content_hash
    pub fragment_held : Holds row.payload "fragment_id" f.fragment_id
    pub quote_held : Holds row.payload "quote_hash" f.content_hash
    pub text_held : Holds row.payload "text" f.text_content
    pub same_content : row.content_hash ≡ e.content_hash
    pub same_rights : row.rights_status ≡ source.rights_status
    pub found_eq : found ≡ (f.text_content, row.evidence_id)

  supporting_text-Supports :
      (key : String) (found : String × String)
      → supporting_text p c source fragments by_key key ≡ ok found
      → Supports key found
  unfolding supporting_text payload_differs
  supporting_text-Supports key found h =
      let (row, bound, h1) = >>=-eq-ok (bound_evidence c (get key by_key)) _ h in
      let (e, packaged, h2) =
        >>=-eq-ok (required "Packaged Evidence Object is absent" (find_packaged key p.evidence)) _
          h1 in
      let (f, cut, h3) =
        >>=-eq-ok (required "Evidence fragment is absent" (get e.fragment_id fragments)) _ h2 in
      let (u, quoted, h4) = >>=-eq-ok (reject_if (not (e.quote_hash == f.content_hash)) _) _ h3 in
      let (v, agrees, h5) = >>=-eq-ok (reject_if (payload_differs row e f) _) _ h4 in
      let (w, rights, last) =
        >>=-eq-ok (reject_if (not (row.rights_status == source.rights_status)) _) _ h5 in
      let (stored, own) = bound_evidence-eq-ok c (get key by_key) row bound in
      let agreed = reject_if-eq-ok (payload_differs row e f) _ agrees in
      record {
        row = row;
        e = e;
        f = f;
        stored = stored;
        own = own;
        in_package = required-eq-ok _ (find_packaged key p.evidence) packaged;
        in_fragment = required-eq-ok _ (get e.fragment_id fragments) cut;
        quoted = same_text e.quote_hash f.content_hash (reject_if-eq-ok _ _ quoted);
        fragment_held =
            is_text_sound f.fragment_id (lookup "fragment_id" row.payload) (ground (arith, agreed));
        quote_held =
            is_text_sound f.content_hash (lookup "quote_hash" row.payload) (ground (arith, agreed));
        text_held =
            is_text_sound f.text_content (lookup "text" row.payload) (ground (arith, agreed));
        same_content = (eq_iff row.content_hash e.content_hash).0 (ground (arith, agreed));
        same_rights = same_text row.rights_status source.rights_status (reject_if-eq-ok _ _ rights);
        found_eq = sym (ok_injective last);
      }

  payload-agrees :
      (key : String) (found : String × String) (s : Supports key found)
      → payload_differs s.row s.e s.f ≡ false
  unfolding payload_differs
  payload-agrees key found s =
      let a =
        is_text_complete s.f.fragment_id (lookup "fragment_id" s.row.payload) s.fragment_held in
      let b = is_text_complete s.f.content_hash (lookup "quote_hash" s.row.payload) s.quote_held in
      let d = is_text_complete s.f.text_content (lookup "text" s.row.payload) s.text_held in
      let h = (eq_iff s.row.content_hash s.e.content_hash).1 s.same_content in rw (a, b, d, h) refl

  Supports-supporting_text :
      (key : String) (found : String × String)
      → Supports key found
      → supporting_text p c source fragments by_key key ≡ ok found
  unfolding supporting_text bound_evidence required
  Supports-supporting_text key found s =
      let quoted = (eq_iff s.e.quote_hash s.f.content_hash).1 s.quoted in
      let rights = (eq_iff s.row.rights_status source.rights_status).1 s.same_rights in
      let agrees = payload-agrees key found s in
      rw (s.stored, s.own, s.in_package, s.in_fragment, quoted, agrees, rights)
        (ap ok (sym s.found_eq))

  pub supporting_texts_sound :
      (keys : List String) (found : List (String × String))
      → supporting_texts p c source fragments by_key keys ≡ ok found
      → Matched Supports keys found
  unfolding supporting_texts
  supporting_texts_sound [] found h = subst (Matched Supports []) (ok_injective h) none_left
  supporting_texts_sound (key ∷ keys) found h =
      let (t, first, rest) = >>=-eq-ok (supporting_text p c source fragments by_key key) _ h in
      let (ts, others, last) =
        >>=-eq-ok (supporting_texts p c source fragments by_key keys) _ rest in
      subst (Matched Supports (key ∷ keys)) (ok_injective last)
        (pair (supporting_text-Supports key t first) (supporting_texts_sound keys ts others))

  pub supporting_texts_complete :
      (keys : List String) (found : List (String × String))
      → Matched Supports keys found
      → supporting_texts p c source fragments by_key keys ≡ ok found
  unfolding supporting_texts
  supporting_texts_complete _ _ none_left = refl
  supporting_texts_complete _ _ (pair {x = key} {y = t} {xs = keys} {ys = ts} s rest) =
      rw (Supports-supporting_text key t s, supporting_texts_complete keys ts rest) refl
