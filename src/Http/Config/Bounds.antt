-- ===== src/Http/Config/Bounds.antt =====
-- What a configuration that was accepted is good for.
use mail_server_client.Base.{
  ℕ, uint64_of_int64, ◌≤◌, ◌≡◌, refl, false, Option, none, some, Bytes, is_empty, ltb, ◌==◌, ◌||◌,
  Bool-cases, Option-cases, inl, inr, arith,
}
use mathlib.Core.Path.{subst}
use mail_server_client.Storage.Database.{Result, ok, err}
use mail_server_client.Http.Json.{
  Json, Fields, JsonText, Parsed, parsed, parse_failed, null, boolean, int64, uint64, real, text,
  array, object, if_contains,
}
use mail_server_client.Http.Config.{
  MailServerConfiguration, get_port, port_of, port_in_range, read_members, read_root, load,
  validate, configurator, ◌>>=◌,
}

pub record IsPort (port : ℕ) : Type 0 where
  pub least : 1 ≤ port
  pub most : port ≤ 65535

pub record IsUsable (c : MailServerConfiguration) : Type 0 where
  pub server_port : IsPort c.server.port
  pub smtp_port : IsPort c.smtp.port
  pub storage : is_empty c.database.storage_path ≡ false
  pub migrations : is_empty c.database.migrations_path ≡ false
  pub server_host : is_empty c.server.host ≡ false
  pub smtp_host : is_empty c.smtp.host ≡ false
  pub log_file : is_empty c.logger.file_path ≡ false

bind_ok :
    {A B : Type 0} (r : Result A) (f : A → Result B) (b : B)
    → (r >>= f) ≡ ok b
    → (a : A) × (r ≡ ok a) × (f a ≡ ok b)
unfolding ◌>>=◌
bind_ok (ok a) f b h = (a, refl, h)
bind_ok (err e) f b h = cc

ok_injective : {A : Type 0} {a b : A} → ok a ≡ ok b → a ≡ b
ok_injective h = cc

port_in_range-IsPort : (name : Bytes) (n port : ℕ) → port_in_range name n ≡ ok port → IsPort port
unfolding port_in_range
port_in_range-IsPort name n port h = elim (Bool-cases (n == 0 || ltb 65535 n)) [
  | inl e ↦ let g = rw e at h in cc
  | inr e ↦
      let g : ok n ≡ ok port = rw e at h in
      let same : n ≡ port = cc in record { least = ground arith; most = ground arith }
]

port_of-IsPort :
    (name : Bytes) (value : Json) (port : ℕ) → port_of name value ≡ ok port → IsPort port
unfolding port_of
port_of-IsPort name (uint64 n) port h = port_in_range-IsPort name n port h
port_of-IsPort name (int64 n) port h = port_in_range-IsPort name (uint64_of_int64 n) port h
port_of-IsPort name null port h = cc
port_of-IsPort name (boolean b) port h = cc
port_of-IsPort name (real t) port h = cc
port_of-IsPort name (text t) port h = cc
port_of-IsPort name (array xs) port h = cc
port_of-IsPort name (object xs) port h = cc

get_port-IsPort :
    (fields : Fields) (name : Bytes) (default_value port : ℕ)
    → IsPort default_value
    → get_port fields name default_value ≡ ok port
    → IsPort port
unfolding get_port
get_port-IsPort fields name default_value port d h = elim (Option-cases (if_contains name fields)) [
  | inl e ↦
      let g : ok default_value ≡ ok port = rw (e, get_port) at h in
      let same : default_value ≡ port = cc in rw (← same) d
  | inr (x, e) ↦ port_of-IsPort name x port (rw (e, get_port) at h)
]

default-IsPort : (n : ℕ) → 1 ≤ n → n ≤ 65535 → IsPort n
default-IsPort n h k = record { least = h; most = k }

record HasPorts (c : MailServerConfiguration) : Type 0 where
  of_server : IsPort c.server.port
  of_smtp : IsPort c.smtp.port

read_members-HasPorts :
    (database server smtp logging : Fields) (c : MailServerConfiguration)
    → read_members database server smtp logging ≡ ok c
    → HasPorts c
unfolding read_members
read_members-HasPorts database server smtp logging c h =
    let (a₁, e₁, h₁) = bind_ok _ _ c h in
    let (a₂, e₂, h₂) = bind_ok _ _ c h₁ in
    let (a₃, e₃, h₃) = bind_ok _ _ c h₂ in
    let (a₄, e₄, h₄) = bind_ok _ _ c h₃ in
    let (a₅, e₅, h₅) = bind_ok _ _ c h₄ in
    let (a₆, e₆, h₆) = bind_ok _ _ c h₅ in
    let (a₇, e₇, h₇) = bind_ok _ _ c h₆ in
    let (a₈, e₈, h₈) = bind_ok _ _ c h₇ in
    let (a₉, e₉, h₉) = bind_ok _ _ c h₈ in
    let (b, e, g) = bind_ok _ _ c h₉ in
    let server_port =
      get_port-IsPort _ _ 8080 a₄ (default-IsPort 8080 (omega arith) (omega arith)) e₄ in
    let smtp_port =
      get_port-IsPort _ _ 2525 a₆ (default-IsPort 2525 (omega arith) (omega arith)) e₆ in
    let same = ok_injective g in
    record {
      of_server = subst (λ (c : MailServerConfiguration). IsPort c.server.port) same server_port;
      of_smtp = subst (λ (c : MailServerConfiguration). IsPort c.smtp.port) same smtp_port;
    }

read_root-HasPorts :
    (root : Fields) (c : MailServerConfiguration) → read_root root ≡ ok c → HasPorts c
unfolding read_root
read_root-HasPorts root c h =
    let (a₁, e₁, h₁) = bind_ok _ _ c h in
    let (a₂, e₂, h₂) = bind_ok _ _ c h₁ in
    let (a₃, e₃, h₃) = bind_ok _ _ c h₂ in
    let (a₄, e₄, h₄) = bind_ok _ _ c h₃ in read_members-HasPorts a₁ a₂ a₃ a₄ c h₄

parsed-HasPorts :
    (json : JsonText) (path file : Bytes) (c : MailServerConfiguration) (p : Parsed)
    → json.parse file ≡ p
    → load json path (some file) ≡ ok c
    → HasPorts c
unfolding load
parsed-HasPorts json path file c (parse_failed m) e h = let g = rw (e, load) at h in cc
parsed-HasPorts json path file c (parsed (object root)) e h =
    read_root-HasPorts root c (rw (e, load) at h)
parsed-HasPorts json path file c (parsed null) e h = let g = rw (e, load) at h in cc
parsed-HasPorts json path file c (parsed (boolean b)) e h = let g = rw (e, load) at h in cc
parsed-HasPorts json path file c (parsed (int64 n)) e h = let g = rw (e, load) at h in cc
parsed-HasPorts json path file c (parsed (uint64 n)) e h = let g = rw (e, load) at h in cc
parsed-HasPorts json path file c (parsed (real t)) e h = let g = rw (e, load) at h in cc
parsed-HasPorts json path file c (parsed (text t)) e h = let g = rw (e, load) at h in cc
parsed-HasPorts json path file c (parsed (array xs)) e h = let g = rw (e, load) at h in cc

load-HasPorts :
    (json : JsonText) (path : Bytes) (file : Option Bytes) (c : MailServerConfiguration)
    → load json path file ≡ ok c
    → HasPorts c
unfolding load
load-HasPorts json path none c h = cc
load-HasPorts json path (some file) c h = parsed-HasPorts json path file c (json.parse file) refl h

validate-IsUsable :
    (c : MailServerConfiguration) (u : Unit {0}) → validate c ≡ ok u → HasPorts c → IsUsable c
unfolding validate
validate-IsUsable c u h p = record {
  server_port = p.of_server;
  smtp_port = p.of_smtp;
  storage = ground arith;
  migrations = ground arith;
  server_host = ground arith;
  smtp_host = ground arith;
  log_file = ground arith;
}

-- A configuration that the configurator accepts, whatever the file holds, has both ports between 1 and
-- 65535, and neither path, host nor log file empty.
pub configurator-IsUsable :
    (json : JsonText) (path : Bytes) (file : Option Bytes) (c : MailServerConfiguration)
    → configurator json path file ≡ ok c
    → IsUsable c
unfolding configurator
configurator-IsUsable json path file c h =
    let (loaded, e, h₁) = bind_ok _ _ c h in
    let (u, v, h₂) = bind_ok _ _ c h₁ in
    subst IsUsable (ok_injective h₂)
      (validate-IsUsable loaded u v (load-HasPorts json path file loaded e))
