-- ===== src/Http/Request/Overruns.antt =====
-- `HttpRequest::Process` on a start line without a version, contrib/http/http_request.cc.
use anoii.Prelude.{
  ℕ, ◌≡◌, ◌≢◌, refl, sym, ◌∙◌, false, none, [], ◌∷◌, ◌++◌, arith, ◌==◌, length, length-append, err,
  out_of_bounds,
}
use mathlib.Core.List.{append_assoc}
use mathlib.Core.Path.{subst}
use anoii.Buffer.{Buffer, contents, first_of}
use anoii.Buffer.Inv.{IsValid}
use anoii.Buffer.Refine.{pop-Takes}
use anoii.Buffer.Search.{Lacks-append, Lacks}
use anoii.Http.Utils.{Bytes}
use anoii.Http.Request.{
  HttpRequest, RequestType, unknow, get, post, crlf, space, get_name, post_name, target_part,
  space_part, method_part, start_line,
}
use anoii.Http.Request.Start.{
  first_of-append, first_of-absent, start_with-append, not_get, Lacks-name, method_name,
}

space_part_overruns :
    {b : Buffer} (n i : ℕ) (method behind : Bytes) (req : HttpRequest)
    → IsValid b
    → contents b ≡ method ++ (space ++ behind)
    → length method ≡ n
    → Lacks b' ' behind
    → space_part n i req b ≡ err out_of_bounds
unfolding space_part target_part
space_part_overruns {b} n i method behind req v e ln no_space =
    let (b1, p1, v1, c1) = pop-Takes n method _ v e ln in
    let spaced = start_with-append space _ v1 c1 in
    let (b2, p2, v2, c2) = pop-Takes 1 space _ v1 c1 refl in
    let absent : first_of space b2 ≡ none =
      first_of-absent b2 b' ' [] (subst (Lacks b' ') (sym c2) no_space) in
    rw (p1, spaced, p2, target_part, absent) refl

method_part_overruns :
    {b : Buffer} (i : ℕ) (type : RequestType) (behind : Bytes) (req : HttpRequest)
    → type ≢ unknow
    → IsValid b
    → contents b ≡ method_name type ++ (space ++ behind)
    → Lacks b' ' behind
    → method_part i req b ≡ err out_of_bounds
unfolding method_part
method_part_overruns i unknow behind req known v e no_space = absurd (known refl)
method_part_overruns i get behind req known v e no_space =
    rw (start_with-append get_name _ v e)
      (space_part_overruns 3 i get_name behind _ v e refl no_space)
method_part_overruns i post behind req known v e no_space =
    rw (not_get _ v e, start_with-append post_name _ v e)
      (space_part_overruns 4 i post_name behind _ v e refl no_space)

-- A start line with a method and a target but no version, so that no space follows the target in
-- what is buffered: the guard lets the index -1 through, and the target is read out of bounds.
pub start_line_overruns :
    {b : Buffer} (type : RequestType) (target rest : Bytes) (req : HttpRequest)
    → type ≢ unknow
    → IsValid b
    → contents b ≡ method_name type ++ (space ++ (target ++ (crlf ++ rest)))
    → Lacks b' ' target
    → Lacks 13 target
    → Lacks b' ' rest
    → start_line req b ≡ err out_of_bounds
unfolding start_line
start_line_overruns {b} type target rest req known v e no_space nt nr =
    let line = method_name type ++ (space ++ target) in
    let whole : contents b ≡ line ++ (crlf ++ rest) =
      e ∙ sym (append_assoc (method_name type) (space ++ target) (crlf ++ rest)) in
    let no_return : Lacks 13 line =
      Lacks-append 13 (method_name type) _ (Lacks-name type) (omega arith, nt) in
    let found = first_of-append b 13 (10 ∷ []) line rest whole no_return in
    let counted = length-append (method_name type) (space ++ target) in
    let some_line : (length line == 0) ≡ false = ground arith in
    rw (found, start_line, some_line)
      (method_part_overruns (length line) type _ req known v e
        (Lacks-append b' ' target _ no_space (omega arith, (omega arith, nr))))
