-- ===== src/Activity/Log.antt =====
-- The ring buffer and its subscribers: balena/network-config/internal/activity/activity.go. A
-- subscriber's channel holds at most 32 entries; its reader is not part of the program.
use nf_sdk.Base.{
  ℕ, ◌-◌, ℤ, pos, negsuc, ◌||◌, List, [], ◌∷◌, ◌++◌, Text, length, drop, take, ltb, map,
  if◌then◌else◌,
}

pub data Level : Type 0 where
  info warn error change : Level

pub record Entry : Type 0 where
  pub at : ℕ
  pub level : Level
  pub source : Text
  pub message : Text
  pub detail : Text
  pub actor : Text

-- What a subscriber has not yet received.
abbrev pub Channel : Type 0
Channel = List Entry

pub record Log : Type 0 where
  pub entries : List Entry
  pub limit : ℕ
  pub subscribers : List Channel

abbrev pub channel_size : ℕ
channel_size = 32

abbrev limit_of : ℤ → ℕ
limit_of (pos n) = if ltb n 1 then 500 else n
limit_of (negsuc n) = 500

-- `New`
unfoldable pub new_log : ℤ → Log
new_log limit = record { entries = []; limit = limit_of limit; subscribers = [] }

-- The send that a full channel drops.
unfoldable pub offer : Entry → Channel → Channel
offer e c = if ltb (length c) channel_size then c ++ e ∷ [] else c

unfoldable pub keep_last : ℕ → List Entry → List Entry
keep_last limit es = if ltb limit (length es) then drop (length es - limit) es else es

-- `Log.Add`
unfoldable pub add : Entry → Log → Log
unfolding keep_last offer
add e l = record l {
  entries = keep_last l.limit (l.entries ++ e ∷ []);
  subscribers = map (offer e) l.subscribers;
}

unfoldable pub newest_first : List Entry → List Entry
newest_first [] = []
newest_first (e ∷ es) = newest_first es ++ e ∷ []

abbrev clamp : ℤ → ℕ → ℕ
clamp (pos n) most = if ltb n 1 || ltb most n then most else n
clamp (negsuc n) most = most

-- `Log.Entries`
unfoldable pub recent : ℤ → Log → List Entry
unfolding newest_first
recent limit l = take (clamp limit (length l.entries)) (newest_first l.entries)

-- `Log.Subscribe`
unfoldable pub subscribe : Log → Log
subscribe l = record l { subscribers = l.subscribers ++ [] ∷ [] }
