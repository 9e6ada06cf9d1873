-- ===== src/Itineraries/Access.antt =====
-- Who may read and change an itinerary, its collaborators and its share links, of
-- backend/app/modules/itineraries/service.py.
use travel_latest.Base.{
  ℕ, Bool, true, false, not, ◌&&◌, ◌||◌, Option, none, some, List, ◌==◌, if◌then◌else◌, is_some,
  or_else, leb,
}
use travel_latest.Base.Exec.{◌>>=◌, ◌>>◌, pure, modify, gets, raise_if, commit, with_some}
use travel_latest.Base.Tables.{scalar, get, save, add}
use travel_latest.Memberships.Model.{has_user}
use travel_latest.Itineraries.Model.{
  Itinerary, TripCollaborator, TripShareToken, CollaboratorRole, viewer, editor, InviteStatus,
  pending, accepted, revoked, TripDb, M, value_error, itinerary_by_id, new_uuid, collaborator_key,
  token_key,
}

abbrev pub is_accepted : InviteStatus → Bool
is_accepted accepted = true
is_accepted _ = false

abbrev pub is_editor : CollaboratorRole → Bool
is_editor editor = true
is_editor viewer = false

abbrev pub is_pending : InviteStatus → Bool
is_pending pending = true
is_pending _ = false

unfoldable pub accepted_collaborator : ℕ → ℕ → List TripCollaborator → Option TripCollaborator
accepted_collaborator itinerary_id user_id =
    scalar (λ c. c.itinerary_id == itinerary_id && c.user_id == user_id && is_accepted c.status)

unfoldable pub accepted_editor : ℕ → ℕ → List TripCollaborator → Option TripCollaborator
accepted_editor itinerary_id user_id = scalar λ c.
    c.itinerary_id == itinerary_id
    && c.user_id == user_id
    && is_editor c.role
    && is_accepted c.status

-- `_can_edit`, which `can_export` calls
unfoldable pub can_edit : Itinerary → ℕ → TripDb → Bool
can_edit itinerary actor_id d =
    itinerary.owner_id == actor_id
    || is_some (accepted_editor itinerary.id actor_id d.collaborators)

-- `_can_read`
unfoldable pub can_read : Itinerary → ℕ → TripDb → Bool
can_read itinerary actor_id d =
    itinerary.owner_id == actor_id
    || is_some (accepted_collaborator itinerary.id actor_id d.collaborators)

pub data AccessRole : Type 0 where
  owner : AccessRole
  collaborator : CollaboratorRole → AccessRole

unfoldable pub get_access_role : Itinerary → ℕ → TripDb → Option AccessRole
get_access_role itinerary actor_id d =
    if itinerary.owner_id == actor_id
    then some owner
    else elim (accepted_collaborator itinerary.id actor_id d.collaborators) [
      | none ↦ none
      | some c ↦ some (collaborator c.role)
    ]

unfoldable pub get_itinerary : ℕ → ℕ → TripDb → Option Itinerary
get_itinerary itinerary_id actor_id d = elim (itinerary_by_id itinerary_id d.itineraries) [
  | none ↦ none
  | some itinerary ↦ if can_read itinerary actor_id d then some itinerary else none
]

-- `itinerary is None or itinerary.owner_id != actor_id`
abbrev pub is_not_owner : Option Itinerary → ℕ → Bool
is_not_owner none actor_id = true
is_not_owner (some itinerary) actor_id = not (itinerary.owner_id == actor_id)

unfoldable pub collaborator_of : ℕ → ℕ → List TripCollaborator → Option TripCollaborator
collaborator_of itinerary_id user_id =
    scalar (λ c. c.itinerary_id == itinerary_id && c.user_id == user_id)

unfoldable pub put_collaborator : TripCollaborator → List TripCollaborator → List TripCollaborator
put_collaborator c = save c

unfoldable pub save_collaborator : TripCollaborator → M Unit
save_collaborator c = modify (λ d. record d { collaborators = put_collaborator c d.collaborators })

unfoldable pub add_collaborator : ℕ → ℕ → CollaboratorRole → M TripCollaborator
add_collaborator itinerary_id user_id role = do
  id ← new_uuid
  let c : TripCollaborator = record {
    id = id;
    itinerary_id = itinerary_id;
    user_id = user_id;
    role = role;
    status = pending;
  }
  modify (λ d. record d { collaborators = add c d.collaborators })
  pure c

unfoldable pub reinvite : CollaboratorRole → TripCollaborator → M TripCollaborator
reinvite role c = do
  save_collaborator (record c { role = role; status = pending })
  pure (record c { role = role; status = pending })

unfoldable pub invite_collaborator : ℕ → ℕ → ℕ → CollaboratorRole → M (Option TripCollaborator)
invite_collaborator itinerary_id actor_id user_id role = do
  itinerary ← gets (λ d. itinerary_by_id itinerary_id d.itineraries)
  known ← gets (λ d. has_user user_id d.users)
  if is_not_owner itinerary actor_id || user_id == actor_id || not known then pure none else do
    found ← gets (λ d. collaborator_of itinerary_id user_id d.collaborators)
    c ← with_some found (add_collaborator itinerary_id user_id role) (reinvite role)
    commit
    pure (some c)

unfoldable pub collaborator_by_id : ℕ → List TripCollaborator → Option TripCollaborator
collaborator_by_id i = get i

unfoldable pub update_collaborator :
    ℕ → ℕ → ℕ → Option CollaboratorRole → Option InviteStatus → M (Option TripCollaborator)
update_collaborator itinerary_id collaborator_id actor_id role invite_status = do
  itinerary ← gets (λ d. itinerary_by_id itinerary_id d.itineraries)
  found ← gets (λ d. collaborator_by_id collaborator_id d.collaborators)
  with_some found (pure none) λ c.
      if is_not_owner itinerary actor_id || not (c.itinerary_id == itinerary_id)
      then pure none
      else do
        let c' = record c { role = or_else role c.role; status = or_else invite_status c.status }
        save_collaborator c'
        commit
        pure (some c')

abbrev pub is_revoked : InviteStatus → Bool
is_revoked revoked = true
is_revoked _ = false

unfoldable pub accept_collaborator : ℕ → ℕ → ℕ → M (Option TripCollaborator)
accept_collaborator itinerary_id collaborator_id actor_id = do
  found ← gets (λ d. collaborator_by_id collaborator_id d.collaborators)
  with_some found (pure none) λ c.
      if not (c.itinerary_id == itinerary_id) || not (c.user_id == actor_id) || is_revoked c.status
      then pure none
      else if is_pending c.status
      then (do
        save_collaborator (record c { status = accepted })
        commit
        pure (some (record c { status = accepted })))
      else pure (some c)

-- `expires_at is not None and expires_at <= now`
abbrev pub is_expired : ℕ → Option ℕ → Bool
is_expired now none = false
is_expired now (some t) = leb t now

-- The token is a new random text, and `hash` is its digest.
unfoldable pub create_share_token :
    ℕ → (ℕ → ℕ) → ℕ → ℕ → ℕ → Option ℕ → M (Option (TripShareToken × ℕ))
create_share_token now hash token itinerary_id actor_id expires_at = do
  itinerary ← gets (λ d. itinerary_by_id itinerary_id d.itineraries)
  if is_not_owner itinerary actor_id then pure none else do
    raise_if (is_expired now expires_at) value_error
    id ← new_uuid
    let share_token : TripShareToken = record {
      id = id;
      itinerary_id = itinerary_id;
      token_hash = hash token;
      expires_at = expires_at;
      revoked_at = none;
    }
    modify (λ d. record d { share_tokens = add share_token d.share_tokens })
    commit
    pure (some (share_token, token))

unfoldable pub share_token_by_id : ℕ → List TripShareToken → Option TripShareToken
share_token_by_id i = get i

unfoldable pub put_share_token : TripShareToken → List TripShareToken → List TripShareToken
put_share_token t = save t

unfoldable pub revoke_share_token : ℕ → ℕ → ℕ → ℕ → M Bool
revoke_share_token now itinerary_id token_id actor_id = do
  itinerary ← gets (λ d. itinerary_by_id itinerary_id d.itineraries)
  found ← gets (λ d. share_token_by_id token_id d.share_tokens)
  with_some found (pure false) λ t.
      if is_not_owner itinerary actor_id || not (t.itinerary_id == itinerary_id)
      then pure false
      else if is_some t.revoked_at
      then pure true
      else do
        modify λ d. record d {
          share_tokens = put_share_token (record t { revoked_at = some now }) d.share_tokens;
        }
        commit
        pure true

unfoldable pub live_token : ℕ → ℕ → List TripShareToken → Option TripShareToken
live_token itinerary_id token_hash =
    scalar λ t.
      t.itinerary_id == itinerary_id && t.token_hash == token_hash && not (is_some t.revoked_at)

unfoldable pub get_shared_itinerary : ℕ → (ℕ → ℕ) → ℕ → ℕ → TripDb → Option Itinerary
get_shared_itinerary now hash itinerary_id token d =
    elim (live_token itinerary_id (hash token) d.share_tokens) [
      | none ↦ none
      | some t ↦
          if is_expired now t.expires_at then none else itinerary_by_id itinerary_id d.itineraries
    ]
