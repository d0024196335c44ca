-- ===== src/Json/Readers/Notification.antt =====
-- src/json_util.c: `get_gitlab_notification_target_` on an object.
use ghcli.Json.Readers.{Read, read_number, to_unsigned, skip_object_value}
use ghcli.Json.Readers.Members.{Leaves}
use ghcli.Json.Readers.Objects.{
  TargetPath, target_member, target_loop, get_gitlab_notification_target,
}
use ghcli.CString.{str_eq}
use ghcli.Json.Stream.{
  object, object_end, array, true_value, false_value, null_value, Pdjson, Token, plain, text, num,
  Value, atom, written, numeral, truth, nothing, list, obj, Members, none_left, member, tokens_of,
  tokens_of_members, IsLawful,
}
use ghcli.Prelude.{
  ℕ, zero, suc, Bool-cases, ◌^◌, ◌<◌, ◌≡◌, inl, inr, refl, true, false, List, ◌∷◌, Bytes, ltb,
  if◌then◌else◌, arith, codes, none, some, ℤ, pos, negsuc,
}
use ghcli.Prelude.{Result, ok, failed, ◌>>=◌}

module _ (P : Pdjson) (laws : IsLawful P) where
  abbrev pub count : Members P.Number → ℕ
  count none_left = 0
  count (member k v ms) = suc (count ms)

  -- A number that fits, at a member that needs one.
  abbrev number_at : Value P.Number → Result ℕ
  number_at (atom (numeral n)) = to_unsigned (P.truncate n)
  number_at _ = failed

  -- The numbers at the last "iid" and the last "project_id".
  abbrev pub path_of : Members P.Number → TargetPath → Result TargetPath
  path_of none_left path = ok path
  path_of (member k v ms) path =
      if str_eq (codes "iid") k
      then (number_at v >>= λ n. path_of ms (record path { id = some n }))
      else if str_eq (codes "project_id") k
      then (number_at v >>= λ n. path_of ms (record path { project_id = some n }))
      else path_of ms path

  skip_object_value-tokens_of :
      (v : Value P.Number) (s : P.Stream) (rest : List (Token P.Number))
      → laws.Yields s (tokens_of v rest)
      → laws.Yields (skip_object_value P s) rest
  unfolding skip_object_value tokens_of
  skip_object_value-tokens_of (list vs) s rest yields =
      let (type, shows, goes) = laws.next-token (plain array) yields in
      rw type (laws.skip_until-array vs goes)
  skip_object_value-tokens_of (obj ms) s rest yields =
      let (type, shows, goes) = laws.next-token (plain object) yields in
      rw type (laws.skip_until-object ms goes)
  skip_object_value-tokens_of (atom (written b)) s rest yields =
      let (type, shows, goes) = laws.next-token (text b) yields in rw type goes
  skip_object_value-tokens_of (atom (numeral n)) s rest yields =
      let (type, shows, goes) = laws.next-token (num n) yields in rw type goes
  skip_object_value-tokens_of (atom (truth true)) s rest yields =
      let (type, shows, goes) = laws.next-token (plain true_value) yields in rw type goes
  skip_object_value-tokens_of (atom (truth false)) s rest yields =
      let (type, shows, goes) = laws.next-token (plain false_value) yields in rw type goes
  skip_object_value-tokens_of (atom nothing) s rest yields =
      let (type, shows, goes) = laws.next-token (plain null_value) yields in rw type goes

  converted :
      {A : Type 0} (z : ℤ) (s : P.Stream) (set : ℕ → TargetPath)
      (loop : P.Stream → TargetPath → Read P A) (g : TargetPath → Result A)
      (rest : List (Token P.Number))
      → ((n : ℕ) → Leaves P laws (loop s (set n)) (g (set n)) rest)
      → Leaves P laws
          (((to_unsigned z >>= λ n. ok (n, s)) >>= λ (n, s'). ok (set n, s')) >>= λ (path', s').
            loop s' path')
          (to_unsigned z >>= λ n. g (set n))
          rest
  converted (negsuc n) s set loop g rest h = tt
  converted (pos n) s set loop g rest h = elim (Bool-cases (ltb n (2 ^ 64))) [
    | inl fits ↦ rw fits (h n)
    | inr large ↦ rw large tt
  ]

  read_number-number_at :
      {A : Type 0} (v : Value P.Number) (s : P.Stream) (set : ℕ → TargetPath)
      (loop : P.Stream → TargetPath → Read P A) (g : TargetPath → Result A)
      (rest end : List (Token P.Number))
      → laws.Yields s (tokens_of v rest)
      → ((s' : P.Stream) (path' : TargetPath)
          → laws.Yields s' rest
          → Leaves P laws (loop s' path') (g path') end)
      → Leaves P laws
          ((read_number P to_unsigned s >>= λ (n, s'). ok (set n, s')) >>= λ (path', s').
            loop s' path')
          (number_at v >>= λ n. g (set n))
          end
  unfolding tokens_of
  read_number-number_at (list vs) s set loop g rest end yields next =
      let (type, shows, goes) = laws.next-token (plain array) yields in rw type tt
  read_number-number_at (obj ms) s set loop g rest end yields next =
      let (type, shows, goes) = laws.next-token (plain object) yields in rw type tt
  read_number-number_at (atom (written b)) s set loop g rest end yields next =
      let (type, shows, goes) = laws.next-token (text b) yields in rw type tt
  read_number-number_at (atom (truth true)) s set loop g rest end yields next =
      let (type, shows, goes) = laws.next-token (plain true_value) yields in rw type tt
  read_number-number_at (atom (truth false)) s set loop g rest end yields next =
      let (type, shows, goes) = laws.next-token (plain false_value) yields in rw type tt
  read_number-number_at (atom nothing) s set loop g rest end yields next =
      let (type, shows, goes) = laws.next-token (plain null_value) yields in rw type tt
  read_number-number_at (atom (numeral n)) s set loop g rest end yields next =
      let (type, shows, goes) = laws.next-token (num n) yields in
      rw (type, shows) (converted (P.truncate n) _ set loop g end (λ k. next _ (set k) goes))

  member_step :
      (k : Bytes) (v : Value P.Number) (ms : Members P.Number) (s : P.Stream) (path : TargetPath)
      (rest end : List (Token P.Number)) (loop : P.Stream → TargetPath → Read P TargetPath)
      → P.get_string s ≡ k
      → laws.Yields s (tokens_of v rest)
      → ((s' : P.Stream) (path' : TargetPath)
          → laws.Yields s' rest
          → Leaves P laws (loop s' path') (path_of ms path') end)
      → Leaves P laws
          (target_member P s path >>= λ (path', s'). loop s' path')
          (path_of (member k v ms) path)
          end
  member_step k v ms s path rest end loop shows yields next =
      rw shows (elim (Bool-cases (str_eq (codes "iid") k)) [
        | inl id ↦ rw id (
            read_number-number_at v s (λ n. record path { id = some n }) loop (path_of ms) rest end
              yields next)
        | inr no_id ↦ elim (Bool-cases (str_eq (codes "project_id") k)) [
          | inl project ↦
              rw (no_id, project)
                (read_number-number_at v s (λ n. record path { project_id = some n }) loop
                  (path_of ms) rest end yields next)
          | inr other ↦
              rw (no_id, other) (next _ path (skip_object_value-tokens_of v s rest yields))
        ]
      ])

  target_loop-path_of :
      (ms : Members P.Number) (fuel : ℕ) (s : P.Stream) (path : TargetPath)
      (rest : List (Token P.Number))
      → count ms < fuel
      → laws.Yields s (tokens_of_members ms (plain object_end ∷ rest))
      → Leaves P laws (target_loop P fuel s path) (path_of ms path) rest
  unfolding target_loop tokens_of
  target_loop-path_of ms zero s path rest lt yields = absurd (omega arith)
  target_loop-path_of none_left (suc fuel) s path rest lt yields =
      let (type, shows, goes) = laws.next-token (plain object_end) yields in rw type (refl, goes)
  target_loop-path_of (member k v ms) (suc fuel) s path rest lt yields =
      let (type, shows, goes) = laws.next-token (text k) yields in
      rw type (
        member_step k v ms _ path _ rest (target_loop P fuel) shows goes
          (λ s' path' goes'. target_loop-path_of ms fuel s' path' rest (omega arith) goes'))

  -- If pdjson does what it promises, on an object with any members, with a round of fuel more than
  -- there are: get_gitlab_notification_target_ comes to the numbers at the last "iid" and the last
  -- "project_id", and the stream goes on behind the object, whatever arrays and objects are in it. It is
  -- an error if such a member has no number, and undefined if the number does not fit.
  pub get_gitlab_notification_target-path_of :
      (ms : Members P.Number) (fuel : ℕ) (s : P.Stream) (rest : List (Token P.Number))
      → count ms < fuel
      → laws.Yields s (tokens_of (obj ms) rest)
      → Leaves P laws
          (get_gitlab_notification_target P fuel s)
          (path_of ms (record { project_id = none; id = none }))
          rest
  unfolding get_gitlab_notification_target tokens_of
  get_gitlab_notification_target-path_of ms fuel s rest lt yields =
      let (type, shows, goes) = laws.next-token (plain object) yields in
      rw type (target_loop-path_of ms fuel _ _ rest lt goes)
