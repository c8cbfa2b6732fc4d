-- ===== src/Config/Shape.antt =====
-- internal/platform/config/config.go: the configuration structs with their tags, each as its zero
-- value; `new_config` is &Config{}.
use goscratch.Base.{[], false, Str, lit}
use goscratch.Config.{Fields, no_fields, field, text, number, flag, texts, struct}

abbrev str_field : Str → Str → Fields → Fields
str_field key tag = field key tag (text [])

abbrev int_field : Str → Str → Fields → Fields
int_field key tag = field key tag (number 0)

abbrev bool_field : Str → Str → Fields → Fields
bool_field key tag = field key tag (flag false)

abbrev list_field : Str → Str → Fields → Fields
list_field key tag = field key tag (texts [])

-- a nested struct, which has no env tag
abbrev struct_field : Str → Fields → Fields → Fields
struct_field key fs = field key (lit "") (struct fs)

unfoldable pub app_config : Fields
app_config =
    str_field (lit "name") (lit "APP_NAME") (str_field (lit "env") (lit "APP_ENV") no_fields)

unfoldable pub server_config : Fields
server_config = str_field (lit "host") (lit "SERVER_HOST") (
    int_field (lit "port") (lit "SERVER_PORT") (
      int_field (lit "read_timeout") (lit "SERVER_READ_TIMEOUT") (
        int_field (lit "write_timeout") (lit "SERVER_WRITE_TIMEOUT") (
          int_field (lit "idle_timeout") (lit "SERVER_IDLE_TIMEOUT") (
            list_field (lit "trusted_proxies") (lit "SERVER_TRUSTED_PROXIES")
              (str_field (lit "proxy_header") (lit "SERVER_PROXY_HEADER") no_fields))))))

unfoldable pub database_config : Fields
database_config = str_field (lit "host") (lit "DB_HOST") (
    int_field (lit "port") (lit "DB_PORT") (
      str_field (lit "user") (lit "DB_USER") (
        str_field (lit "password") (lit "DB_PASSWORD") (
          str_field (lit "name") (lit "DB_NAME") (
            str_field (lit "ssl_mode") (lit "DB_SSL_MODE") (
              int_field (lit "max_open_conns") (lit "DB_MAX_OPEN_CONNS") (
                int_field (lit "max_idle_conns") (lit "DB_MAX_IDLE_CONNS") (
                  int_field (lit "conn_max_lifetime") (lit "DB_CONN_MAX_LIFETIME") no_fields))))))))

unfoldable pub jwt_config : Fields
jwt_config = str_field (lit "secret") (lit "JWT_SECRET") (
    int_field (lit "access_token_ttl") (lit "JWT_ACCESS_TOKEN_TTL") (
      int_field (lit "refresh_token_ttl") (lit "JWT_REFRESH_TOKEN_TTL") (
        str_field (lit "issuer") (lit "JWT_ISSUER")
          (str_field (lit "audience") (lit "JWT_AUDIENCE") no_fields))))

unfoldable pub cors_config : Fields
cors_config = str_field (lit "allow_origins") (lit "CORS_ALLOW_ORIGINS") (
    str_field (lit "allow_methods") (lit "CORS_ALLOW_METHODS") (
      str_field (lit "allow_headers") (lit "CORS_ALLOW_HEADERS")
        (bool_field (lit "allow_credentials") (lit "CORS_ALLOW_CREDENTIALS") no_fields)))

unfoldable pub redis_config : Fields
redis_config = bool_field (lit "enabled") (lit "REDIS_ENABLED") (
    str_field (lit "host") (lit "REDIS_HOST") (
      int_field (lit "port") (lit "REDIS_PORT") (
        str_field (lit "password") (lit "REDIS_PASSWORD")
          (int_field (lit "db") (lit "REDIS_DB") no_fields))))

unfoldable pub rabbit_mq_config : Fields
rabbit_mq_config = bool_field (lit "enabled") (lit "RABBITMQ_ENABLED") (
    str_field (lit "url") (lit "RABBITMQ_URL")
      (int_field (lit "prefetch_count") (lit "RABBITMQ_PREFETCH_COUNT") no_fields))

unfoldable pub local_storage : Fields
local_storage = str_field (lit "base_path") (lit "STORAGE_LOCAL_PATH") no_fields

unfoldable pub s3_storage : Fields
s3_storage = str_field (lit "endpoint") (lit "S3_ENDPOINT") (
    str_field (lit "bucket") (lit "S3_BUCKET") (
      str_field (lit "region") (lit "S3_REGION") (
        str_field (lit "access_key") (lit "S3_ACCESS_KEY")
          (str_field (lit "secret_key") (lit "S3_SECRET_KEY") no_fields))))

unfoldable pub storage_config : Fields
storage_config =
    str_field (lit "mode") (lit "STORAGE_MODE")
      (struct_field (lit "local") local_storage (struct_field (lit "s3") s3_storage no_fields))

unfoldable pub sse_config : Fields
sse_config = bool_field (lit "enabled") (lit "SSE_ENABLED") no_fields

unfoldable pub audit_config : Fields
audit_config = bool_field (lit "enabled") (lit "AUDIT_ENABLED") no_fields

unfoldable pub authorization_config : Fields
authorization_config = bool_field (lit "enabled") (lit "AUTHORIZATION_ENABLED") no_fields

unfoldable pub worker_config : Fields
worker_config = bool_field (lit "enabled") (lit "WORKER_ENABLED") (
    int_field (lit "concurrency") (lit "WORKER_CONCURRENCY") (
      str_field (lit "queue_name") (lit "WORKER_QUEUE_NAME")
        (str_field (lit "exchange") (lit "WORKER_EXCHANGE") no_fields)))

unfoldable pub metrics_config : Fields
metrics_config =
    bool_field (lit "enabled") (lit "METRICS_ENABLED")
      (int_field (lit "port") (lit "METRICS_PORT") no_fields)

unfoldable pub tracing_config : Fields
tracing_config =
    bool_field (lit "enabled") (lit "TRACING_ENABLED")
      (str_field (lit "endpoint") (lit "TRACING_ENDPOINT") no_fields)

unfoldable pub observability_config : Fields
observability_config =
    struct_field (lit "metrics") metrics_config
      (struct_field (lit "tracing") tracing_config no_fields)

unfoldable pub email_config : Fields
email_config = bool_field (lit "enabled") (lit "EMAIL_ENABLED") (
    str_field (lit "host") (lit "EMAIL_HOST") (
      int_field (lit "port") (lit "EMAIL_PORT") (
        str_field (lit "username") (lit "EMAIL_USERNAME") (
          str_field (lit "password") (lit "EMAIL_PASSWORD")
            (str_field (lit "from") (lit "EMAIL_FROM") no_fields)))))

unfoldable pub rate_limit_config : Fields
rate_limit_config = bool_field (lit "enabled") (lit "RATE_LIMIT_ENABLED") (
    int_field (lit "max") (lit "RATE_LIMIT_MAX")
      (int_field (lit "window_sec") (lit "RATE_LIMIT_WINDOW_SEC") no_fields))

unfoldable pub health_config : Fields
health_config =
    int_field (lit "readiness_timeout_sec") (lit "HEALTH_READINESS_TIMEOUT_SEC") no_fields

unfoldable pub new_config : Fields
new_config = struct_field (lit "app") app_config (
    struct_field (lit "server") server_config (
      struct_field (lit "database") database_config (
        struct_field (lit "jwt") jwt_config (
          struct_field (lit "cors") cors_config (
            struct_field (lit "redis") redis_config (
              struct_field (lit "rabbitmq") rabbit_mq_config (
                struct_field (lit "storage") storage_config (
                  struct_field (lit "sse") sse_config (
                    struct_field (lit "audit") audit_config (
                      struct_field (lit "authorization") authorization_config (
                        struct_field (lit "worker") worker_config (
                          struct_field (lit "observability") observability_config (
                            struct_field (lit "email") email_config (
                              struct_field (lit "rate_limit") rate_limit_config
                                (struct_field (lit "health") health_config no_fields)))))))))))))))
