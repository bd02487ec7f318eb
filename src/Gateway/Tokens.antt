-- ===== src/Gateway/Tokens.antt =====
-- agent_token.go: bearer credentials and agent tokens.
use velm.Base.{
  Bool, not, ◌&&◌, if◌then◌else◌, none, some, Result, ok, err, [], Text, txt, trim, lower, ◌==◌,
  length, ltb, take_bytes, drop_bytes,
}
use velm.Gateway.Model.{Request, Services, header}

-- ParseBearer
unfoldable pub parse_bearer : Text → Text
unfolding take_bytes drop_bytes lower trim txt ◌==◌
parse_bearer authorization =
    if ltb 7 (length authorization) && lower (take_bytes 7 authorization) == txt "bearer "
    then trim (drop_bytes 7 authorization)
    else []

-- IsBearerRequest
unfoldable pub is_bearer_request : Request → Bool
unfolding parse_bearer header txt ◌==◌
is_bearer_request r = not (parse_bearer (header (txt "Authorization") r) == [])

pub data TokenFailure : Type 0 where
  no_agent_token agent_revoked agent_expired token_store_failed : TokenFailure

-- ResolveAgentToken: the user of the token; `none` of the lookup is its error
unfoldable pub resolve_agent_token : Services → Text → Result TokenFailure Text
unfolding ◌==◌
resolve_agent_token services raw =
    if raw == []
    then err no_agent_token
    else elim (services.lookup_agent_token (services.sha256 raw)) [
      | none ↦ err token_store_failed
      | some token ↦
          if token.is_revoked
          then err agent_revoked
          else if token.is_expired
          then err agent_expired
          else if services.touch_agent_token token.id
          then ok token.user_id
          else err token_store_failed
    ]
