-- ===== src/Builtins/Types.antt =====
-- The types of the builtin commands, by what they embed: every one of them embeds noHandshake,
-- noRecord, emptyArgs and defaultTimeout too.

-- the types that a command embeds for its authorization
pub data AccessTrait : Type 0 where
  allow_all allow_admins : AccessTrait

pub data ChannelTrait : Type 0 where
  any_channel im_only_channel : ChannelTrait

pub record CommandType : Type 0 where
  pub access : AccessTrait
  pub channel : ChannelTrait

abbrev embeds : AccessTrait → ChannelTrait → CommandType
embeds access channel = record { access = access; channel = channel }

abbrev pub version_command : CommandType
version_command = embeds allow_all any_channel

abbrev pub help_command : CommandType
help_command = embeds allow_all any_channel

abbrev pub cancel_job_command : CommandType
cancel_job_command = embeds allow_all any_channel

abbrev pub kill_job_command : CommandType
kill_job_command = embeds allow_admins any_channel

abbrev pub groups_command : CommandType
groups_command = embeds allow_admins any_channel

abbrev pub jobs_command : CommandType
jobs_command = embeds allow_all any_channel

abbrev pub audit_command : CommandType
audit_command = embeds allow_admins any_channel

abbrev pub last_command : CommandType
last_command = embeds allow_all any_channel

abbrev pub find_job_command : CommandType
find_job_command = embeds allow_all any_channel

abbrev pub audit_job_command : CommandType
audit_job_command = embeds allow_admins any_channel

abbrev pub audit_logs_command : CommandType
audit_logs_command = embeds allow_all any_channel

abbrev pub tail_command : CommandType
tail_command = embeds allow_all any_channel

abbrev pub head_command : CommandType
head_command = embeds allow_all any_channel

abbrev pub logs_command : CommandType
logs_command = embeds allow_all any_channel

abbrev pub new_api_token_command : CommandType
new_api_token_command = embeds allow_admins im_only_channel

abbrev pub revoke_api_token_command : CommandType
revoke_api_token_command = embeds allow_admins im_only_channel

abbrev pub list_api_tokens_command : CommandType
list_api_tokens_command = embeds allow_admins im_only_channel

abbrev pub new_alias_command : CommandType
new_alias_command = embeds allow_all any_channel

abbrev pub delete_alias_command : CommandType
delete_alias_command = embeds allow_all any_channel

abbrev pub get_aliases_command : CommandType
get_aliases_command = embeds allow_all any_channel
