-- ===== src/Administration/Laws.antt =====
-- Histories of requests of administrators and coordinators.
use aerobi_api.Common.{
  ◌≡◌, refl, sym, ap, subst, ◌∙◌, Bool, true, false, not, ◌&&◌, List, [], ◌∷◌, Option, none, some,
  String, str_eq, ℕ, any, filter, All, inl, inr, Bool-cases, Option-cases, arith,
}
use aerobi_api.Common.Errors.{Result}
use aerobi_api.Common.Keeps.{Keeps, keeps, keeps_rules, Keeps-run}
use aerobi_api.Authz.Permissions.{UserRole}
use aerobi_api.Authz.Guards.{AuthenticatedUser}
use aerobi_api.Accounts.{User, Accounts, TokenType, revoke_all_for_user}
use aerobi_api.Tokens.{DrawnToken, create_one_time_token, invite_minutes}
use aerobi_api.Administration.{
  CreateUserInput, AdminUpdate, create_user, update_user, remove_user, actor_scope, is_admin_role,
  save_edit, edited, insert_user, soft_delete, removed, revoke_if, is_taken,
}
use aerobi_api.Administration.Rows.{
  WellFormed, append-WellFormed, update-WellFormed, update_email-WellFormed,
}
use aerobi_api.Administration.Confined.{
  update_user-Confined, remove_user-Confined, outside, actor_group,
}
use aerobi_api.Administration.Newcomers.{create_user-Confined, invite-users}

abbrev pub HasUniqueKeys : Accounts → Type 0
HasUniqueKeys s = WellFormed s.users

Keeps-insert : (u : User) → Keeps HasUniqueKeys (insert_user u)
unfolding insert_user
Keeps-insert u = keeps λ s w. elim (Bool-cases (is_taken s.users u.id u.email)) [
  | inl taken ↦ rw taken w
  | inr free ↦ rw free (append-WellFormed s.users u w free)
]

Keeps-save_edit :
    (id : String) (u : User) (dto : AdminUpdate) → Keeps HasUniqueKeys (save_edit id u dto)
unfolding save_edit
Keeps-save_edit id u dto = keeps λ s w.
    elim (Bool-cases
      (any (λ v. not (str_eq v.id id) && str_eq v.email (edited dto u).email) s.users)) [
        | inl clash ↦ rw clash w
        | inr clear ↦ elim (Option-cases dto.email) [
          | inl same ↦
              rw clear (update-WellFormed id (edited dto) (λ v. refl) (λ v. rw same refl) s.users w)
          | inr (email, new) ↦ rw clear (
              update_email-WellFormed id (edited dto) (λ v. refl) email (λ v. rw new refl) s.users w
                (rw new at clear))
        ]
      ]

Keeps-soft_delete : (id : String) (now : ℕ) → Keeps HasUniqueKeys (soft_delete id now)
unfolding soft_delete
Keeps-soft_delete id now = keeps λ s w. elim (Bool-cases (any (λ u. str_eq u.id id) s.users)) [
  | inl there ↦ rw there (update-WellFormed id (removed now) (λ v. refl) (λ v. refl) s.users w)
  | inr absent ↦ rw absent w
]

Keeps-revoke : (id : String) (now : ℕ) → Keeps HasUniqueKeys (revoke_all_for_user id now)
unfolding revoke_all_for_user
Keeps-revoke id now = keeps λ s w. w

Keeps-revoke_if : (b : Bool) (id : String) (now : ℕ) → Keeps HasUniqueKeys (revoke_if b id now)
unfolding revoke_all_for_user
Keeps-revoke_if true id now = keeps λ s w. w
Keeps-revoke_if false id now = keeps λ s w. w

Keeps-invite :
    (d : DrawnToken) (id : String)
    → Keeps HasUniqueKeys (create_one_time_token d id TokenType.invite invite_minutes)
Keeps-invite d id = keeps λ s w. subst WellFormed (sym (invite-users d id s)) w

Keeps-scope : (actor : AuthenticatedUser) → Keeps HasUniqueKeys (actor_scope actor)
unfolding actor_scope
Keeps-scope actor = keeps λ s w. w

Keeps-read : {A : Type 0} (f : Accounts → Result A) → Keeps HasUniqueKeys (λ s. (f s, s))
Keeps-read f = keeps λ s w. w

ruleset admin_rules = (
  keeps_rules, Keeps-insert, Keeps-save_edit, Keeps-soft_delete, Keeps-revoke, Keeps-revoke_if,
  Keeps-invite, Keeps-scope, Keeps-read,
)

Keeps-create_user :
    (id : String) (d : DrawnToken) (input : CreateUserInput) (actor : AuthenticatedUser)
    → Keeps HasUniqueKeys (create_user id d input actor)
unfolding create_user
Keeps-create_user id d input actor = search admin_rules depth 14

Keeps-update_user :
    (id : String) (dto : AdminUpdate) (actor : AuthenticatedUser) (now : ℕ)
    → Keeps HasUniqueKeys (update_user id dto actor now)
unfolding update_user
Keeps-update_user id dto actor now = search admin_rules depth 20

Keeps-remove_user :
    (id : String) (actor : AuthenticatedUser) (now later : ℕ)
    → Keeps HasUniqueKeys (remove_user id actor now later)
unfolding remove_user
Keeps-remove_user id actor now later = search admin_rules depth 16

-- A request and who makes it.
pub data AdminRequest : Type 0 where
  creates : String → DrawnToken → CreateUserInput → AdminRequest
  edits : String → AdminUpdate → ℕ → AdminRequest
  removes : String → ℕ → ℕ → AdminRequest

unfoldable pub serve : AuthenticatedUser × AdminRequest → Accounts → Accounts
unfolding create_user update_user remove_user
serve (actor, creates id d input) s = (create_user id d input actor s).1
serve (actor, edits id dto now) s = (update_user id dto actor now s).1
serve (actor, removes id now later) s = (remove_user id actor now later s).1

unfoldable pub serve_all : List (AuthenticatedUser × AdminRequest) → Accounts → Accounts
unfolding serve
serve_all [] s = s
serve_all (r ∷ rs) s = serve_all rs (serve r s)

serve-HasUniqueKeys :
    (r : AuthenticatedUser × AdminRequest) (s : Accounts)
    → HasUniqueKeys s
    → HasUniqueKeys (serve r s)
unfolding serve
serve-HasUniqueKeys (actor, creates id d input) s w =
    Keeps-run (Keeps-create_user id d input actor) s w
serve-HasUniqueKeys (actor, edits id dto now) s w =
    Keeps-run (Keeps-update_user id dto actor now) s w
serve-HasUniqueKeys (actor, removes id now later) s w =
    Keeps-run (Keeps-remove_user id actor now later) s w

-- After any history of requests of administrators and coordinators to create, edit and remove
-- accounts, whether they succeed or not, no two accounts share an id or an address, if that held
-- before.
serve_all-HasUniqueKeys :
    (rs : List (AuthenticatedUser × AdminRequest)) (s : Accounts)
    → HasUniqueKeys s
    → HasUniqueKeys (serve_all rs s)
unfolding serve_all
serve_all-HasUniqueKeys [] s w = w
serve_all-HasUniqueKeys (r ∷ rs) s w =
    serve_all-HasUniqueKeys rs (serve r s) (serve-HasUniqueKeys r s w)

abbrev pub IsCoordinator : AuthenticatedUser × AdminRequest → Type 0
IsCoordinator (actor, r) = actor.role ≡ UserRole.coordinator

-- Where ids and addresses of accounts are unique, no request of a coordinator, whether it succeeds
-- or not, changes an account outside the own group, or one of an administrator.
pub serve-outside :
    (actor : AuthenticatedUser) (r : AdminRequest)
    → actor.role ≡ UserRole.coordinator
    → (s : Accounts) → HasUniqueKeys s
    → filter (outside (actor_group s actor.id)) (serve (actor, r) s).users
      ≡ filter (outside (actor_group s actor.id)) s.users
unfolding serve
serve-outside actor (creates id d input) h s w = create_user-Confined id d input actor h s w
serve-outside actor (edits id dto now) h s w = update_user-Confined id dto actor now h s w
serve-outside actor (removes id now later) h s w = remove_user-Confined id actor now later h s w

abbrev pub is_admin : User → Bool
is_admin u = is_admin_role u.role

-- The administrators are among the accounts outside every group.
admins-outside :
    (g : Option String) (us : List User)
    → filter is_admin (filter (outside g) us) ≡ filter is_admin us
admins-outside g [] = refl
admins-outside none (u ∷ us) = ground (arith, admins-outside none us)
admins-outside (some g) (u ∷ us) = ground (arith, admins-outside (some g) us)

serve-admins :
    (r : AuthenticatedUser × AdminRequest) (s : Accounts)
    → IsCoordinator r
    → HasUniqueKeys s
    → filter is_admin (serve r s).users ≡ filter is_admin s.users
serve-admins (actor, r) s h w =
    let g = actor_group s actor.id in
    sym (admins-outside g (serve (actor, r) s).users)
    ∙ ap (filter is_admin) (serve-outside actor r h s w)
    ∙ admins-outside g s.users

-- Where ids and addresses of accounts are unique, no history of requests of coordinators to create,
-- edit and remove accounts changes the accounts of the administrators.
pub serve_all-admins :
    (rs : List (AuthenticatedUser × AdminRequest)) (s : Accounts)
    → All IsCoordinator rs
    → HasUniqueKeys s
    → filter is_admin (serve_all rs s).users ≡ filter is_admin s.users
unfolding serve_all
serve_all-admins [] s h w = refl
serve_all-admins (r ∷ rs) s (h, hs) w =
    serve_all-admins rs (serve r s) hs (serve-HasUniqueKeys r s w) ∙ serve-admins r s h w
