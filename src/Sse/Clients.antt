-- ===== src/Sse/Clients.antt =====
-- Clients with channels of their own.
use goscratch.Base.{
  str_eq_instance, ℕ, ◌≡◌, refl, subst, Bool, false, some, [], ◌∷◌, arith, ◌==◌, Str, str_eq,
  Bool-cases, inl, inr, ◌&&◌, ◌||◌, All, if_ind,
}
use goscratch.Base.Dict
use goscratch.Base.Dict.{Dict}
use goscratch.Sse.{ClientInfo, Clients}

abbrev pub AllClients : (ClientInfo → Type 0) → Clients → Type 0
AllClients P = All (λ (e : Str × ClientInfo). P e.1)

abbrev pub Differs : ClientInfo → ClientInfo → Type 0
Differs i j = (i.channel == j.channel) ≡ false

-- no two clients share a channel
abbrev pub Apart : Clients → Type 0
Apart [] = Unit
Apart ((id, info) ∷ clients) = AllClients (Differs info) clients × Apart clients

pub get-AllClients :
    (P : ClientInfo → Type 0) (id : Str) (clients : Clients) (info : ClientInfo)
    → AllClients P clients
    → Dict.get id clients ≡ some info
    → P info
unfolding Dict.get
get-AllClients P id [] info all h = absurd (ground arith)
get-AllClients P id ((k, i) ∷ clients) info all h = elim (Bool-cases (str_eq k id)) [
  | inl here ↦ subst P (ground arith) all.0
  | inr there ↦ get-AllClients P id clients info all.1 (ground arith)
]

pub remove-AllClients :
    (P : ClientInfo → Type 0) (id : Str) (clients : Clients)
    → AllClients P clients
    → AllClients P (Dict.remove id clients)
unfolding Dict.remove
remove-AllClients P id [] all = tt
remove-AllClients P id ((k, i) ∷ clients) all =
    let rest = remove-AllClients P id clients all.1 in
    if_ind (AllClients P) (str_eq k id) (λ _. rest) (λ _. (all.0, rest))

pub remove-Apart : (id : Str) (clients : Clients) → Apart clients → Apart (Dict.remove id clients)
unfolding Dict.remove
remove-Apart id [] apart = tt
remove-Apart id ((k, i) ∷ clients) apart =
    let rest = remove-Apart id clients apart.1 in
    if_ind Apart (str_eq k id) (λ _. rest)
      (λ _. (remove-AllClients (Differs i) id clients apart.0, rest))

Differs-sym : (i j : ClientInfo) → Differs i j → Differs j i
Differs-sym i j h = ground arith

-- the clients that stay have other channels than the one that is removed
pub remove-Differs :
    (id : Str) (clients : Clients) (info : ClientInfo)
    → Apart clients
    → Dict.get id clients ≡ some info
    → AllClients (Differs info) (Dict.remove id clients)
unfolding Dict.get Dict.remove
remove-Differs id [] info apart h = tt
remove-Differs id ((k, i) ∷ clients) info apart h = elim (Bool-cases (str_eq k id)) [
  | inl here ↦
      let same : i ≡ info = ground arith in
      rw (here, Dict.remove)
        (remove-AllClients (Differs info) id clients
          (subst (λ x. AllClients (Differs x) clients) same apart.0))
  | inr there ↦
      let found : Dict.get id clients ≡ some info = ground arith in
      rw (there, Dict.remove)
        (
          Differs-sym i info (get-AllClients (Differs i) id clients info apart.0 found),
          remove-Differs id clients info apart.1 found,
        )
]

-- whether some client that is wanted has the channel
unfoldable pub targeted : (ClientInfo → Bool) → ℕ → Clients → Bool
targeted wanted ch [] = false
targeted wanted ch ((id, info) ∷ clients) =
    (info.channel == ch && wanted info) || targeted wanted ch clients

pub targeted-Differs :
    (wanted : ClientInfo → Bool) (info : ClientInfo) (clients : Clients)
    → AllClients (Differs info) clients
    → targeted wanted info.channel clients ≡ false
unfolding targeted
targeted-Differs wanted info [] all = refl
targeted-Differs wanted info ((id, i) ∷ clients) all =
    ground (arith, targeted-Differs wanted info clients all.1, all.0)

-- Whether a client's channel is meant depends on that client alone.
pub targeted-get :
    (wanted : ClientInfo → Bool) (id : Str) (clients : Clients) (info : ClientInfo)
    → Apart clients
    → Dict.get id clients ≡ some info
    → targeted wanted info.channel clients ≡ wanted info
unfolding Dict.get targeted
targeted-get wanted id [] info apart h = absurd (ground arith)
targeted-get wanted id ((k, i) ∷ clients) info apart h = elim (Bool-cases (str_eq k id)) [
  | inl here ↦ ground (arith, targeted-Differs wanted i clients apart.0)
  | inr there ↦
      let found : Dict.get id clients ≡ some info = ground arith in
      ground (
        arith,
        targeted-get wanted id clients info apart.1 found,
        get-AllClients (Differs i) id clients info apart.0 found,
      )
]

pub AllClients-both :
    (P Q R : ClientInfo → Type 0) (clients : Clients)
    → ((i : ClientInfo) → P i → Q i → R i)
    → AllClients P clients
    → AllClients Q clients
    → AllClients R clients
AllClients-both P Q R [] f p q = tt
AllClients-both P Q R ((id, i) ∷ clients) f p q =
    (f i p.0 q.0, AllClients-both P Q R clients f p.1 q.1)
