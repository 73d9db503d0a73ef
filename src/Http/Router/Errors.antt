-- ===== src/Http/Router/Errors.antt =====
-- What the dispatch lets out.
use mail_server_client.Base.{◌≢◌, Option, none, some, List, Bytes}
use mail_server_client.Storage.Database.{Result, ok, err, std_exception, other_exception}
use mail_server_client.Http.Message.{Request}
use mail_server_client.Http.World.{Services, World, give, caught, try_catch}
use mail_server_client.Http.Router.{
  Handler, Route, find_route, extract_path, respond_with, dispatch,
}

caught-never :
    {A : Type 0} (f : Bytes → A) (r : Result A) (message : Bytes)
    → caught f r ≢ err (std_exception message)
caught-never f (ok a) message = λ h. cc
caught-never f (err (std_exception m)) message = λ h. cc
caught-never f (err other_exception) message = λ h. cc

module _ {P : Type 0} (s : Services P) (request : Request) (w : World P) (message : Bytes) where
  found-never :
      (o : Option (Handler P)) → (respond_with s o request w).0 ≢ err (std_exception message)
  unfolding give try_catch respond_with
  found-never none = λ h. cc
  found-never (some handler) = caught-never _ (handler request w).0 message

  -- Whatever the routes and their handlers do, no std::exception leaves the dispatch: a request always
  -- gets a response, unless a handler throws what is not a std::exception.
  pub dispatch-never :
      (routes : List (Route P)) → (dispatch s routes request w).0 ≢ err (std_exception message)
  unfolding dispatch
  dispatch-never routes =
      found-never (find_route request.method (extract_path request.target) routes)
