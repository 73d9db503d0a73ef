-- ===== src/Http/Router.antt =====
-- apps/mail-server/include/mail_server/Router.h. The hash map is the list of its entries.
pub mod Errors
use mail_server_client.Base.{
  ℕ, Bool, true, false, ◌&&◌, Option, none, some, List, [], ◌∷◌, Bytes, codes, bytes_eq, find_byte,
  take, ◌==◌, if◌then◌else◌,
}
use mail_server_client.Http.Message.{Verb, get, post, other, Request, Response, make_error}
use mail_server_client.Http.World.{Services, Action, pure, try_catch}

-- RouteKey::operator==
unfoldable pub same_verb : Verb → Verb → Bool
same_verb get get = true
same_verb post post = true
same_verb (other n) (other m) = n == m
same_verb _ _ = false

abbrev pub Handler : Type 0 → Type 0
Handler P = Request → Action P Response

pub record Route (P : Type 0) : Type 0 where
  pub method : Verb
  pub path : Bytes
  pub handler : Handler P

unfoldable pub extract_path : Bytes → Bytes
extract_path target = elim (find_byte b'?' target) [ none ↦ target | some i ↦ take i target ]

module _ {P : Type 0} where
  unfoldable pub is_route : Verb → Bytes → Route P → Bool
  unfolding same_verb
  is_route method path r = same_verb r.method method && bytes_eq r.path path

  -- m_routes.insert_or_assign
  unfoldable pub add : Verb → Bytes → Handler P → List (Route P) → List (Route P)
  unfolding is_route
  add method path handler [] = record { method = method; path = path; handler = handler } ∷ []
  add method path handler (r ∷ rs) =
      if is_route method path r
      then record { method = method; path = path; handler = handler } ∷ rs
      else r ∷ add method path handler rs

  unfoldable pub find_route : Verb → Bytes → List (Route P) → Option (Handler P)
  unfolding is_route
  find_route method path [] = none
  find_route method path (r ∷ rs) =
      if is_route method path r then some r.handler else find_route method path rs

  -- What follows the look-up.
  unfoldable pub respond_with : Services P → Option (Handler P) → Handler P
  respond_with s none request = pure (make_error s.json request 404 (codes "Route not found"))
  respond_with s (some handler) request =
      try_catch (handler request) (λ message. make_error s.json request 500 message)

  unfoldable pub dispatch : Services P → List (Route P) → Handler P
  unfolding find_route extract_path respond_with
  dispatch s routes request =
      respond_with s (find_route request.method (extract_path request.target) routes) request
